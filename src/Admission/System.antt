-- ===== src/Admission/System.antt =====
-- Any number of goroutines that call `Acquire` and `Release` of internal/storage/admission.go, as
-- interleavings of what each does under the mutex. `holders` counts, for each prefix, the callers
-- between the return of `Acquire` and their `Release`.
use magnitude.Common.{
  ℕ, ◌+◌, ◌-◌, ◌<◌, ◌≤◌, ◌≡◌, true, String, Option, none, some, List, [], ◌∷◌, ◌==◌, nat_keyed,
  string_keyed, if◌then◌else◌,
}
use magnitude.Admission.{
  Chan, Controller, new_controller, in_flight_of, queue_of, acquire, has_chan, receive, cancel,
  release,
}

pub record System : Type 0 where
  pub ac : Controller
  pub holders : String → ℕ

-- `holders` with one entry changed.
abbrev pub update : (String → ℕ) → String → ℕ → String → ℕ
update f k n j = if k == j then n else f j

-- The callers of a prefix after `Acquire` returned at once, or went to wait.
unfoldable pub entered : (String → ℕ) → String → Option Chan → String → ℕ
entered holders p none = update holders p (holders p + 1)
entered holders p (some ch) = holders

pub data Step : System → System → Type 0 where
  enter :
      (s : System) (p : String)
      → Step s
          (record { ac = (acquire s.ac p).0; holders = entered s.holders p (acquire s.ac p).1 })
  wake :
      (s : System) (ch : Chan)
      → has_chan ch s.ac.sent ≡ true
      → Step s (record {
        ac = receive s.ac ch;
        holders = update s.holders ch.prefix (s.holders ch.prefix + 1);
      })
  give_up :
      (s : System) (ch : Chan) (ac' : Controller)
      → cancel s.ac ch ≡ some ac'
      → Step s (record { ac = ac'; holders = s.holders })
  leave :
      (s : System) (p : String) (ac' : Controller)
      → 0 < s.holders p
      → release s.ac p ≡ some ac'
      → Step s (record { ac = ac'; holders = update s.holders p (s.holders p - 1) })

pub data Reach (s : System) : System → Type 0 where
  here : Reach s s
  next : {t u : System} → Reach s t → Step t u → Reach s u

abbrev pub start : ℕ → System
start max = record { ac = new_controller max; holders = λ p. 0 }

-- The tokens of a prefix that no goroutine has taken yet.
abbrev pub tokens : String → List Chan → ℕ
tokens p [] = 0
tokens p (c ∷ q) = if c.prefix == p then tokens p q + 1 else tokens p q

-- The channels of a queue wait for its prefix.
abbrev pub OfPrefix : String → List Chan → Type 0
OfPrefix p [] = Unit {0}
OfPrefix p (c ∷ q) = (c.prefix ≡ p) × OfPrefix p q

abbrev pub rest_of : List Chan → List Chan
rest_of [] = []
rest_of (c ∷ q) = q

-- Every slot in flight has an owner, and there are never too many.
pub record IsSound (max : ℕ) (s : System) : Type 0 where
  pub max_kept : s.ac.max_per_prefix ≡ max
  pub owned : (p : String) → in_flight_of s.ac p ≡ s.holders p + tokens p s.ac.sent
  pub queued : (p : String) → OfPrefix p (queue_of s.ac p)
  pub bounded : (p : String) → in_flight_of s.ac p ≤ max
