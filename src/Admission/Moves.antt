-- ===== src/Admission/Moves.antt =====
-- What each critical section of internal/storage/admission.go does to the counts, the tokens and the
-- queues of every prefix.
use magnitude.Common.{
  ℕ, ◌+◌, ◌-◌, ◌≤◌, ◌≡◌, subst, Bool, true, false, ◌&&◌, String, none, some, List, [], ◌∷◌, ◌++◌,
  ◌==◌, nat_keyed, string_keyed, if◌then◌else◌, arith, Bool-cases, inl, inr,
}
use text.Mathlib.TextEquality.{eq_iff}
use magnitude.Common.Dict
use magnitude.Admission.{
  Chan, inc64, Controller, in_flight_of, queue_of, give_back, has_chan, without_chan, same_chan,
  receive, unqueue, cancel, hand_over,
}
use magnitude.Admission.System.{tokens, OfPrefix, rest_of}

pub OfPrefix-append :
    (p : String) (q : List Chan) (ch : Chan)
    → OfPrefix p q
    → ch.prefix ≡ p
    → OfPrefix p (q ++ ch ∷ [])
OfPrefix-append p [] ch o e = (e, tt)
OfPrefix-append p (c ∷ q) ch o e = (o.0, OfPrefix-append p q ch o.1 e)

pub OfPrefix-without_chan :
    (p : String) (q : List Chan) (ch : Chan) → OfPrefix p q → OfPrefix p (without_chan ch q)
unfolding without_chan
OfPrefix-without_chan p [] ch o = tt
OfPrefix-without_chan p (c ∷ q) ch o = elim (Bool-cases (same_chan c ch)) [
  | inl hit ↦ rw hit o.1
  | inr miss ↦ rw miss (o.0, OfPrefix-without_chan p q ch o.1)
]

pub OfPrefix-rest_of : (p : String) (q : List Chan) → OfPrefix p q → OfPrefix p (rest_of q)
OfPrefix-rest_of p [] o = tt
OfPrefix-rest_of p (c ∷ q) o = o.1

pub same_chan-prefix : (c ch : Chan) → same_chan c ch ≡ true → c.prefix ≡ ch.prefix
unfolding same_chan
same_chan-prefix c ch h = ground (arith, eq_iff c.prefix ch.prefix)

-- Taking a buffered token takes one token of its prefix and no other.
pub tokens-without_chan :
    (p : String) (ch : Chan) (q : List Chan)
    → has_chan ch q ≡ true
    → tokens p (without_chan ch q) + (if ch.prefix == p then 1 else 0) ≡ tokens p q
unfolding has_chan without_chan
tokens-without_chan p ch [] h = absurd (ground arith)
tokens-without_chan p ch (c ∷ q) h =
    ground (arith, same_chan-prefix c ch, tokens-without_chan p ch q)

module _ (ac : Controller) (p : String) where
  pub give_back-in_flight :
      {ac' : Controller}
      → give_back ac p ≡ some ac'
      → (j : String) → in_flight_of ac' j + (if p == j then 1 else 0) ≡ in_flight_of ac j
  unfolding give_back
  give_back-in_flight h j = ground (
    arith,
    eq_iff p j,
    Dict.lookup-delete p j ac.in_flight,
    Dict.lookup-insert p j (in_flight_of ac p - 1) ac.in_flight,
  )

  pub give_back-none : give_back ac p ≡ none → in_flight_of ac p ≡ 0
  unfolding give_back
  give_back-none h = ground arith

  pub give_back-rest :
      {ac' : Controller}
      → give_back ac p ≡ some ac'
      → (ac'.sent ≡ ac.sent)
        × (ac'.max_per_prefix ≡ ac.max_per_prefix)
        × (ac'.wait_queues ≡ ac.wait_queues)
  unfolding give_back
  give_back-rest h = ground arith

pub unqueue-rest :
    (ac : Controller) (ch : Chan)
    → ((unqueue ac ch).sent ≡ ac.sent)
      × ((unqueue ac ch).max_per_prefix ≡ ac.max_per_prefix)
      × ((unqueue ac ch).in_flight ≡ ac.in_flight)
unfolding unqueue
unqueue-rest ac ch = ground arith

pub unqueue-queue :
    (ac : Controller) (ch : Chan) (j : String)
    → queue_of (unqueue ac ch) j ≡ (
        if has_chan ch (queue_of ac ch.prefix) && ch.prefix == j
        then without_chan ch (queue_of ac ch.prefix)
        else queue_of ac j)
unfolding unqueue queue_of
unqueue-queue ac ch j = ground (
  arith,
  eq_iff ch.prefix j,
  Dict.lookup-insert ch.prefix j (without_chan ch (queue_of ac ch.prefix)) ac.wait_queues,
)

-- A queue that changes in one place keeps its prefixes.
pub OfPrefix-if :
    (b : Bool) (p j : String) (q r : List Chan)
    → OfPrefix p q
    → OfPrefix j r
    → OfPrefix j (if b && p == j then q else r)
OfPrefix-if false p j q r oq or = or
OfPrefix-if true p j q r oq or = elim (Bool-cases (p == j)) [
  | inl same ↦ rw same (subst (λ t. OfPrefix t q) ((eq_iff p j).0 same) oq)
  | inr other ↦ rw other or
]

abbrev pub timed_out : Controller → Chan → Controller
timed_out ac ch = unqueue (record ac { total_timeouts = inc64 ac.total_timeouts }) ch

abbrev pub drained : Controller → Chan → ℕ → String → ℕ
drained ac ch one j = if has_chan ch ac.sent then (if ch.prefix == j then one else 0) else 0

-- A cancelled waiter takes its token along, if it has one, and the slot of that token.
module _ (ac : Controller) (ch : Chan) {ac' : Controller} (done : cancel ac ch ≡ some ac') where
  pub cancel_no_token : has_chan ch ac.sent ≡ false → ac' ≡ timed_out ac ch
  unfolding cancel
  cancel_no_token h =
      ground (arith, unqueue-rest (record ac { total_timeouts = inc64 ac.total_timeouts }) ch)

  pub cancel_token :
      has_chan ch ac.sent ≡ true → give_back (receive (timed_out ac ch) ch) ch.prefix ≡ some ac'
  unfolding cancel
  cancel_token h =
      ground (arith, unqueue-rest (record ac { total_timeouts = inc64 ac.total_timeouts }) ch)

  pub cancel-in_flight : (j : String) → in_flight_of ac' j + drained ac ch 1 j ≡ in_flight_of ac j
  unfolding in_flight_of receive
  cancel-in_flight j = elim (Bool-cases (has_chan ch ac.sent)) [
    | inl sent ↦ ground (
      arith,
      unqueue-rest (record ac { total_timeouts = inc64 ac.total_timeouts }) ch,
      give_back-in_flight (receive (timed_out ac ch) ch) ch.prefix (cancel_token sent) j,
    )
    | inr empty ↦ ground (
      arith,
      cancel_no_token empty,
      unqueue-rest (record ac { total_timeouts = inc64 ac.total_timeouts }) ch,
    )
  ]

  pub cancel-sent :
      (ac'.max_per_prefix ≡ ac.max_per_prefix)
      × (ac'.sent ≡ (if has_chan ch ac.sent then without_chan ch ac.sent else ac.sent))
  unfolding receive
  cancel-sent = elim (Bool-cases (has_chan ch ac.sent)) [
    | inl sent ↦ ground (
      arith,
      unqueue-rest (record ac { total_timeouts = inc64 ac.total_timeouts }) ch,
      give_back-rest (receive (timed_out ac ch) ch) ch.prefix (cancel_token sent),
    )
    | inr empty ↦ ground (
      arith,
      cancel_no_token empty,
      unqueue-rest (record ac { total_timeouts = inc64 ac.total_timeouts }) ch,
    )
  ]

  pub cancel-queue :
      (j : String)
      → queue_of ac' j ≡ (
          if has_chan ch (queue_of ac ch.prefix) && ch.prefix == j
          then without_chan ch (queue_of ac ch.prefix)
          else queue_of ac j)
  unfolding queue_of receive
  cancel-queue j =
      let left = unqueue-queue (record ac { total_timeouts = inc64 ac.total_timeouts }) ch j in
      elim (Bool-cases (has_chan ch ac.sent)) [
        | inl sent ↦ ground (
          arith,
          left,
          give_back-rest (receive (timed_out ac ch) ch) ch.prefix (cancel_token sent),
        )
        | inr empty ↦ ground (arith, left, cancel_no_token empty)
      ]

  pub cancel-tokens : (j : String) → tokens j ac'.sent + drained ac ch 1 j ≡ tokens j ac.sent
  cancel-tokens j = ground (arith, cancel-sent, tokens-without_chan j ch ac.sent)

-- A release either passes the slot on as a token, or gives it back.
module _ (ac : Controller) (p : String) {ac' : Controller} where
  pub hand_over-in_flight :
      (q : List Chan)
      → OfPrefix p q
      → hand_over ac p q ≡ some ac'
      → (j : String)
      → in_flight_of ac' j + tokens j ac.sent + (if p == j then 1 else 0)
        ≡ in_flight_of ac j + tokens j ac'.sent
  unfolding hand_over in_flight_of
  hand_over-in_flight [] o h j = ground (arith, give_back-in_flight ac p h j, give_back-rest ac p h)
  hand_over-in_flight (ch ∷ q) o h j = ground (arith, eq_iff p j, eq_iff ch.prefix j)

  pub hand_over-le :
      (q : List Chan)
      → hand_over ac p q ≡ some ac'
      → (j : String) → in_flight_of ac' j ≤ in_flight_of ac j
  unfolding hand_over in_flight_of
  hand_over-le [] h j = omega (arith, give_back-in_flight ac p h j)
  hand_over-le (ch ∷ q) h j = ground arith

  pub hand_over-max :
      (q : List Chan) → hand_over ac p q ≡ some ac' → ac'.max_per_prefix ≡ ac.max_per_prefix
  unfolding hand_over
  hand_over-max [] h = (give_back-rest ac p h).1
  hand_over-max (ch ∷ q) h = ground arith

  pub hand_over-queue :
      (q : List Chan)
      → queue_of ac p ≡ q
      → hand_over ac p q ≡ some ac'
      → (j : String) → queue_of ac' j ≡ (if p == j then rest_of q else queue_of ac j)
  unfolding hand_over queue_of
  hand_over-queue [] e h j = ground (arith, eq_iff p j, give_back-rest ac p h)
  hand_over-queue (ch ∷ q) e h j =
      ground (arith, eq_iff p j, Dict.lookup-insert p j q ac.wait_queues)
