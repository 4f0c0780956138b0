-- ===== src/Admission/Wakeup.antt =====
-- When a free slot reaches the waiters of admission.go, and when it does not.
use magnitude.Common.{
  ℕ, ◌+◌, ◌-◌, ◌≤◌, ◌≡◌, ◌≢◌, refl, true, false, String, some, List, [], ◌∷◌, ◌++◌, nat_keyed,
  string_keyed, arith, same_refl,
}
use text.Mathlib.TextEquality.{eq_iff}
use magnitude.Common.Dict
use magnitude.Admission.{
  Chan, Controller, new_controller, in_flight_of, queue_of, acquire, has_chan, without_chan,
  receive, cancel, release, hand_over,
}
use magnitude.Admission.System.{
  System, Step, enter, wake, give_up, leave, Reach, start, update, entered, tokens,
}
use magnitude.Admission.Moves.{
  cancel-in_flight, cancel-queue, cancel-tokens, cancel-sent, hand_over-max, hand_over-queue,
  give_back-in_flight,
}
use magnitude.Admission.Safety.{admission_safe}

-- If the only slot of a prefix is a token of a caller that gives up, the drain of its channel frees
-- the slot and wakes nobody: the queue stays as it was, with no slot in flight, no holder and no
-- token, so that no `Release` is left to serve it.
pub lost_wakeup :
    (max : ℕ) {s : System} (ch : Chan) {ac' : Controller}
    → Reach (start max) s
    → has_chan ch s.ac.sent ≡ true
    → has_chan ch (queue_of s.ac ch.prefix) ≡ false
    → in_flight_of s.ac ch.prefix ≡ 1
    → cancel s.ac ch ≡ some ac'
    → (in_flight_of ac' ch.prefix ≡ 0)
      × (queue_of ac' ch.prefix ≡ queue_of s.ac ch.prefix)
      × (tokens ch.prefix ac'.sent ≡ 0)
      × (s.holders ch.prefix ≡ 0)
lost_wakeup max {s} ch r sent unqueued one done =
    let (owned, bounded, few) = admission_safe max r ch.prefix in
    let self = same_refl ch.prefix in
    let counts = cancel-in_flight s.ac ch done ch.prefix in
    let taken = cancel-tokens s.ac ch done ch.prefix in
    let q = cancel-queue s.ac ch done ch.prefix in
    (ground arith, ground arith, ground arith, ground arith)

-- A step in which no caller gives up with a token in its channel.
abbrev pub IsCalm : {s t : System} → Step s t → Type 0
IsCalm (give_up s ch ac' h) = has_chan ch s.ac.sent ≡ false
IsCalm _ = Unit

pub data CalmReach (s : System) : System → Type 0 where
  still : CalmReach s s
  calmly : {t u : System} → CalmReach s t → (st : Step t u) → IsCalm st → CalmReach s u

-- Callers wait only while every slot is in flight.
abbrev IsBusy : ℕ → System → Type 0
IsBusy max s =
    (s.ac.max_per_prefix ≡ max) × ((p : String) → queue_of s.ac p ≢ [] → max ≤ in_flight_of s.ac p)

without_chan-nil : (ch : Chan) (q : List Chan) → without_chan ch q ≢ [] → q ≢ []
unfolding without_chan
without_chan-nil ch [] h e = h refl
without_chan-nil ch (c ∷ q) h e = cc

module _ {max : ℕ} (s : System) (v : IsBusy max s) where
  enter-IsBusy :
      (p : String)
      → IsBusy max
          (record { ac = (acquire s.ac p).0; holders = entered s.holders p (acquire s.ac p).1 })
  unfolding acquire in_flight_of queue_of
  enter-IsBusy p = (
    ground (arith, v.0),
    λ j h. ground (
      arith,
      eq_iff p j,
      v.0,
      v.1 j,
      v.1 p,
      Dict.lookup-insert p j (in_flight_of s.ac p + 1) s.ac.in_flight,
      Dict.lookup-insert p j (queue_of s.ac p ++ record { serial = s.ac.made; prefix = p } ∷ [])
          s.ac.wait_queues,
    ),
  )

  give_up-IsBusy :
      (ch : Chan) (ac' : Controller)
      → cancel s.ac ch ≡ some ac'
      → has_chan ch s.ac.sent ≡ false
      → IsBusy max (record { ac = ac'; holders = s.holders })
  give_up-IsBusy ch ac' h calm = (
    ground (arith, v.0, cancel-sent s.ac ch h),
    λ j w. ground (
      arith,
      eq_iff ch.prefix j,
      v.1 j,
      v.1 ch.prefix,
      cancel-in_flight s.ac ch h j,
      cancel-queue s.ac ch h j,
      without_chan-nil ch (queue_of s.ac ch.prefix),
    ),
  )

  leave-IsBusy :
      (p : String) (q : List Chan) (ac' : Controller) (holders : String → ℕ)
      → queue_of s.ac p ≡ q
      → hand_over s.ac p q ≡ some ac'
      → IsBusy max (record { ac = ac'; holders = holders })
  unfolding hand_over in_flight_of
  leave-IsBusy p [] ac' holders e h = (
    ground (arith, v.0, hand_over-max s.ac p [] (unfold hand_over in h)),
    λ j w. ground (
      arith,
      eq_iff p j,
      v.1 j,
      give_back-in_flight s.ac p h j,
      hand_over-queue s.ac p [] e (unfold hand_over in h) j,
    ),
  )
  leave-IsBusy p (ch ∷ q) ac' holders e h = (
    ground (arith, v.0),
    λ j w. ground (
      arith,
      eq_iff p j,
      v.1 j,
      v.1 p,
      hand_over-queue s.ac p (ch ∷ q) e (unfold hand_over in h) j,
    ),
  )

Step-IsBusy : {max : ℕ} {s t : System} (st : Step s t) → IsCalm st → IsBusy max s → IsBusy max t
unfolding receive release in_flight_of queue_of
Step-IsBusy (enter s p) c v = enter-IsBusy s v p
Step-IsBusy (wake s ch h) c v = v
Step-IsBusy (give_up s ch ac' h) c v = give_up-IsBusy s v ch ac' h c
Step-IsBusy (leave s p ac' held h) c v =
    leave-IsBusy s v p (queue_of s.ac p) ac' (update s.holders p (s.holders p - 1)) refl h

CalmReach-IsBusy : (max : ℕ) {s : System} → CalmReach (start max) s → IsBusy max s
unfolding new_controller queue_of Dict.lookup
CalmReach-IsBusy max still = (refl, λ p w. absurd (w refl))
CalmReach-IsBusy max (calmly r st c) = Step-IsBusy st c (CalmReach-IsBusy max r)

-- As long as no caller gives up with a token in its channel, a prefix has waiters only while all of
-- its slots are in flight.
pub busy_while_waiting :
    (max : ℕ) {s : System}
    → CalmReach (start max) s
    → (p : String) → queue_of s.ac p ≢ []
    → max ≤ in_flight_of s.ac p
busy_while_waiting max r p w = (CalmReach-IsBusy max r).1 p w
