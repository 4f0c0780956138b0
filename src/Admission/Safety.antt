-- ===== src/Admission/Safety.antt =====
-- The invariant of admission.go over every interleaving, and what follows from it.
use magnitude.Common.{
  ℕ, ◌+◌, ◌-◌, ◌<◌, ◌≤◌, ◌≡◌, ◌≢◌, refl, subst, true, String, none, some, List, [], ◌∷◌, ◌++◌, ltb,
  ◌==◌, nat_keyed, string_keyed, arith, Bool-cases, same_refl, inl, inr,
}
use text.Mathlib.TextEquality.{eq_iff}
use magnitude.Common.Dict
use magnitude.Admission.{
  Chan, inc64, Controller, new_controller, in_flight_of, queue_of, acquire, has_chan, without_chan,
  receive, cancel, release, hand_over,
}
use magnitude.Admission.System.{
  System, Step, enter, wake, give_up, leave, Reach, here, next, start, update, entered, tokens,
  OfPrefix, rest_of, IsSound,
}
use magnitude.Admission.Moves.{
  OfPrefix-append, OfPrefix-without_chan, OfPrefix-rest_of, tokens-without_chan, give_back-none,
  unqueue-rest, OfPrefix-if, timed_out, cancel-in_flight, cancel-sent, cancel-queue, cancel-tokens,
  hand_over-in_flight, hand_over-le, hand_over-max, hand_over-queue,
}

-- The channel that the next waiter makes.
abbrev waiter : System → String → Chan
waiter s p = record { serial = s.ac.made; prefix = p }

module _ {max : ℕ} (s : System) (v : IsSound max s) where
  enter-queued : (p j : String) → OfPrefix j (queue_of (acquire s.ac p).0 j)
  unfolding acquire queue_of
  enter-queued p j = elim (Bool-cases (ltb (in_flight_of s.ac p) s.ac.max_per_prefix)) [
    | inl free ↦ rw free (v.queued j)
    | inr full ↦
        rw (full, Dict.lookup-insert p j (queue_of s.ac p ++ waiter s p ∷ []) s.ac.wait_queues)
          (elim (Bool-cases (p == j)) [
            | inl same ↦ rw same (
                subst (λ t. OfPrefix t (queue_of s.ac p ++ waiter s p ∷ [])) ((eq_iff p j).0 same)
                  (OfPrefix-append p (queue_of s.ac p) (waiter s p) (v.queued p) refl))
            | inr other ↦ rw other (v.queued j)
          ])
  ]

  enter-IsSound :
      (p : String)
      → IsSound max
          (record { ac = (acquire s.ac p).0; holders = entered s.holders p (acquire s.ac p).1 })
  unfolding acquire entered in_flight_of
  enter-IsSound p = record {
    max_kept = ground (arith, v.max_kept);
    owned = λ j. ground (
      arith,
      eq_iff p j,
      v.owned j,
      v.owned p,
      Dict.lookup-insert p j (in_flight_of s.ac p + 1) s.ac.in_flight,
    );
    queued = λ j. enter-queued p j;
    bounded = λ j. ground (
      arith,
      eq_iff p j,
      v.bounded j,
      v.max_kept,
      Dict.lookup-insert p j (in_flight_of s.ac p + 1) s.ac.in_flight,
    );
  }

  wake-IsSound :
      (ch : Chan)
      → has_chan ch s.ac.sent ≡ true
      → IsSound max (record {
        ac = receive s.ac ch;
        holders = update s.holders ch.prefix (s.holders ch.prefix + 1);
      })
  unfolding receive in_flight_of queue_of
  wake-IsSound ch h = record {
    max_kept = v.max_kept;
    owned =
        λ j. ground (arith, eq_iff ch.prefix j, v.owned j, tokens-without_chan j ch s.ac.sent h);
    queued = v.queued;
    bounded = v.bounded;
  }

  give_up-IsSound :
      (ch : Chan) (ac' : Controller)
      → cancel s.ac ch ≡ some ac'
      → IsSound max (record { ac = ac'; holders = s.holders })
  give_up-IsSound ch ac' h = record {
    max_kept = ground (arith, v.max_kept, cancel-sent s.ac ch h);
    owned = λ j. omega (arith, v.owned j, cancel-tokens s.ac ch h j, cancel-in_flight s.ac ch h j);
    queued = λ j. rw (cancel-queue s.ac ch h j) (
        OfPrefix-if (has_chan ch (queue_of s.ac ch.prefix)) ch.prefix j
          (without_chan ch (queue_of s.ac ch.prefix)) (queue_of s.ac j)
          (OfPrefix-without_chan ch.prefix (queue_of s.ac ch.prefix) ch (v.queued ch.prefix))
          (v.queued j));
    bounded = λ j. omega (arith, v.bounded j, cancel-in_flight s.ac ch h j);
  }

  leave-IsSound :
      (p : String) (ac' : Controller)
      → 0 < s.holders p
      → release s.ac p ≡ some ac'
      → IsSound max (record { ac = ac'; holders = update s.holders p (s.holders p - 1) })
  unfolding release
  leave-IsSound p ac' held h = record {
    max_kept = ground (arith, v.max_kept, hand_over-max s.ac p (queue_of s.ac p) h);
    owned = λ j. ground (
      arith,
      eq_iff p j,
      v.owned j,
      hand_over-in_flight s.ac p (queue_of s.ac p) (v.queued p) h j,
    );
    queued = λ j. rw (hand_over-queue s.ac p (queue_of s.ac p) refl h j) (
        OfPrefix-if true p j (rest_of (queue_of s.ac p)) (queue_of s.ac j)
          (OfPrefix-rest_of p (queue_of s.ac p) (v.queued p)) (v.queued j));
    bounded = λ j. omega (arith, v.bounded j, hand_over-le s.ac p (queue_of s.ac p) h j);
  }

  hand_over_total : (p : String) (q : List Chan) → 0 < s.holders p → hand_over s.ac p q ≢ none
  unfolding hand_over
  hand_over_total p [] held e = ground (arith, v.owned p, give_back-none s.ac p e)
  hand_over_total p (ch ∷ q) held e = cc

  cancel_total : (ch : Chan) → cancel s.ac ch ≢ none
  unfolding cancel in_flight_of receive
  cancel_total ch e = elim (Bool-cases (has_chan ch s.ac.sent)) [
    | inl sent ↦ ground (
      arith,
      v.owned ch.prefix,
      same_refl ch.prefix,
      tokens-without_chan ch.prefix ch s.ac.sent sent,
      unqueue-rest (record s.ac { total_timeouts = inc64 s.ac.total_timeouts }) ch,
      give_back-none (receive (timed_out s.ac ch) ch) ch.prefix,
    )
    | inr empty ↦
        ground (arith, unqueue-rest (record s.ac { total_timeouts = inc64 s.ac.total_timeouts }) ch)
  ]

Step-IsSound : {max : ℕ} {s t : System} → Step s t → IsSound max s → IsSound max t
Step-IsSound (enter s p) v = enter-IsSound s v p
Step-IsSound (wake s ch h) v = wake-IsSound s v ch h
Step-IsSound (give_up s ch ac' h) v = give_up-IsSound s v ch ac' h
Step-IsSound (leave s p ac' held h) v = leave-IsSound s v p ac' held h

Reach-IsSound : {max : ℕ} {s t : System} → IsSound max s → Reach s t → IsSound max t
Reach-IsSound v here = v
Reach-IsSound v (next r st) = Step-IsSound st (Reach-IsSound v r)

start-IsSound : (max : ℕ) → IsSound max (start max)
unfolding new_controller in_flight_of queue_of Dict.lookup
start-IsSound max = record {
  max_kept = refl;
  owned = λ p. refl;
  queued = λ p. tt;
  bounded = λ p. omega arith;
}

-- Whatever the goroutines do, at every moment the count of a prefix is the number of its callers
-- that hold a slot or have a token waiting for them, it is at most the limit, and so the callers
-- between `Acquire` and `Release` are never more than the limit.
pub admission_safe :
    (max : ℕ) {s : System}
    → Reach (start max) s
    → (p : String)
    → (in_flight_of s.ac p ≡ s.holders p + tokens p s.ac.sent)
      × (in_flight_of s.ac p ≤ max)
      × (s.holders p ≤ max)
admission_safe max r p =
    let v = Reach-IsSound (start-IsSound max) r in
    (v.owned p, v.bounded p, omega (arith, v.owned p, v.bounded p))

-- In every reachable state a caller that holds a slot can release it and a waiter can give up: the
-- counts that `Release` and the cancelled `Acquire` lower are above 0.
pub calls_total :
    (max : ℕ) {s : System}
    → Reach (start max) s
    → ((p : String) → 0 < s.holders p → release s.ac p ≢ none)
      × ((ch : Chan) → cancel s.ac ch ≢ none)
unfolding release
calls_total max {s} r =
    let v = Reach-IsSound (start-IsSound max) r in
    (λ p held. hand_over_total s v p (queue_of s.ac p) held, cancel_total s v)
