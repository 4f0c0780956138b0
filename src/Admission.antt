-- ===== src/Admission.antt =====
-- internal/storage/admission.go: at most `max_per_prefix` requests in flight for each key prefix.
-- A method that takes the mutex is one function; `Acquire` is two, what it does before the `select`
-- and what it does after its context ended. The counters of type int64 are kept modulo 2 ^ 64.
pub mod System
mod Moves
pub mod Safety
pub mod Wakeup
mod Tests
use magnitude.Common.{
  ℕ, zero, ◌+◌, ◌-◌, ◌%◌, ◌^◌, Bool, true, false, ◌&&◌, ◌||◌, String, Option, none, some, List, [],
  ◌∷◌, ◌++◌, length, ltb, ◌==◌, nat_keyed, string_keyed, if◌then◌else◌,
}
use magnitude.Common.Dict
use magnitude.Common.Dict.{Dict}

-- A channel made by `Acquire`: its identity, and the prefix whose queue it joins.
pub record Chan : Type 0 where
  pub serial : ℕ
  pub prefix : String

unfoldable pub same_chan : Chan → Chan → Bool
same_chan a b = a.serial == b.serial && a.prefix == b.prefix

-- `sent` holds the channels with a token in their buffer; `made` numbers the channels.
pub record Controller : Type 0 where
  pub in_flight : Dict String ℕ
  pub max_per_prefix : ℕ
  pub wait_queues : Dict String (List Chan)
  pub sent : List Chan
  pub made : ℕ
  pub total_acquires : ℕ
  pub total_waits : ℕ
  pub total_timeouts : ℕ

abbrev pub inc64 : ℕ → ℕ
inc64 n = (n + 1) % 2 ^ 64

unfoldable pub new_controller : ℕ → Controller
new_controller max_per_prefix = record {
  in_flight = [];
  max_per_prefix = max_per_prefix;
  wait_queues = [];
  sent = [];
  made = 0;
  total_acquires = 0;
  total_waits = 0;
  total_timeouts = 0;
}

-- A missing key reads as the zero value.
abbrev pub count_or_zero : Option ℕ → ℕ
count_or_zero none = 0
count_or_zero (some n) = n

abbrev pub queue_or_nil : Option (List Chan) → List Chan
queue_or_nil none = []
queue_or_nil (some q) = q

unfoldable pub in_flight_of : Controller → String → ℕ
in_flight_of ac prefix = count_or_zero (Dict.lookup prefix ac.in_flight)

unfoldable pub queue_of : Controller → String → List Chan
queue_of ac prefix = queue_or_nil (Dict.lookup prefix ac.wait_queues)

-- `QueueDepth`
unfoldable pub queue_depth : Controller → String → ℕ
queue_depth ac prefix = length (queue_of ac prefix)

-- `inFlight[prefix]--`, and the entry goes when it reaches 0. `none`: there was nothing to give
-- back, and the source's count would pass below 0.
unfoldable pub give_back : Controller → String → Option Controller
unfolding in_flight_of
give_back ac prefix =
    if in_flight_of ac prefix == 0
    then none
    else if in_flight_of ac prefix - 1 == 0
    then some (record ac { in_flight = Dict.delete prefix ac.in_flight })
    else some
        (record ac { in_flight = Dict.insert prefix (in_flight_of ac prefix - 1) ac.in_flight })

-- `Acquire` up to its `select`: `none` when the slot was free, or the channel to wait on.
unfoldable pub acquire : Controller → String → Controller × Option Chan
unfolding in_flight_of queue_of
acquire ac prefix =
    if ltb (in_flight_of ac prefix) ac.max_per_prefix
    then (
      record ac {
        total_acquires = inc64 ac.total_acquires;
        in_flight = Dict.insert prefix (in_flight_of ac prefix + 1) ac.in_flight;
      },
      none,
    )
    else let ch : Chan = record { serial = ac.made; prefix = prefix } in
      (
        record ac {
          total_acquires = inc64 ac.total_acquires;
          total_waits = inc64 ac.total_waits;
          made = ac.made + 1;
          wait_queues = Dict.insert prefix (queue_of ac prefix ++ ch ∷ []) ac.wait_queues;
        },
        some ch,
      )

unfoldable pub has_chan : Chan → List Chan → Bool
has_chan ch [] = false
has_chan ch (c ∷ q) = same_chan c ch || has_chan ch q

-- The loop that takes `ch` out of the queue: the first hit only.
unfoldable pub without_chan : Chan → List Chan → List Chan
without_chan ch [] = []
without_chan ch (c ∷ q) = if same_chan c ch then q else c ∷ without_chan ch q

-- `case <-ch`: the token leaves the buffer, and `Acquire` returns.
unfoldable pub receive : Controller → Chan → Controller
receive ac ch = record ac { sent = without_chan ch ac.sent }

-- `ac.waitQueues[prefix] = append(q[:i], q[i+1:]...)`, which is assigned only on a hit.
unfoldable pub unqueue : Controller → Chan → Controller
unfolding queue_of
unqueue ac ch =
    if has_chan ch (queue_of ac ch.prefix)
    then record ac {
      wait_queues = Dict.insert ch.prefix (without_chan ch (queue_of ac ch.prefix)) ac.wait_queues;
    }
    else ac

-- `case <-ctx.Done()`: leave the queue, and drain the channel.
unfoldable pub cancel : Controller → Chan → Option Controller
unfolding unqueue receive
cancel ac ch =
    let left = unqueue (record ac { total_timeouts = inc64 ac.total_timeouts }) ch in
    if has_chan ch left.sent then give_back (receive left ch) ch.prefix else some left

-- The head of the queue inherits the slot; with no waiter the slot is given back.
unfoldable pub hand_over : Controller → String → List Chan → Option Controller
hand_over ac prefix [] = give_back ac prefix
hand_over ac prefix (ch ∷ q) =
    some (record ac { wait_queues = Dict.insert prefix q ac.wait_queues; sent = ch ∷ ac.sent })

unfoldable pub release : Controller → String → Option Controller
unfolding hand_over
release ac prefix = hand_over ac prefix (queue_of ac prefix)
