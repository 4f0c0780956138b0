-- ===== src/Admission/Tests.antt =====
-- One slot, a holder and two waiters: the first waiter is handed the slot and gives up.
use magnitude.Common.{◌+◌, ◌-◌, ◌≤◌, ◌≡◌, refl, Option, none, some, [], ◌∷◌, arith}
use magnitude.Common.Dict
use magnitude.Admission.{
  Chan, Controller, new_controller, in_flight_of, queue_of, acquire, has_chan, without_chan,
  same_chan, cancel, release, give_back,
}
use magnitude.Admission.System.{
  System, enter, leave, Reach, here, next, start, entered, update, tokens,
}
use magnitude.Admission.Safety.{admission_safe}
use magnitude.Admission.Wakeup.{lost_wakeup, busy_while_waiting, CalmReach, still, calmly}

-- `Acquire("a")` up to its `select`.
abbrev entering : System → System
entering s = record {
  ac = (acquire s.ac "a").0;
  holders = entered s.holders "a" (acquire s.ac "a").1;
}

abbrev crowded : System
crowded = entering (entering (entering (start 1)))

crowded-Reach : Reach (start 1) crowded
crowded-Reach = next (next (next here (enter _ "a")) (enter _ "a")) (enter _ "a")

abbrev or_else : Option Controller → Controller → Controller
or_else none ac = ac
or_else (some ac') ac = ac'

abbrev released : Controller
released = or_else (release crowded.ac "a") crowded.ac

abbrev handed : System
handed = record { ac = released; holders = update crowded.holders "a" (crowded.holders "a" - 1) }

handed-Reach : Reach (start 1) handed
unfolding release acquire new_controller entered queue_of in_flight_of Dict.lookup Dict.insert
handed-Reach = next crowded-Reach (leave crowded "a" released (omega arith) refl)

abbrev first : Chan
first = record { serial = 0; prefix = "a" }

abbrev gone : Controller
gone = or_else (cancel handed.ac first) handed.ac

lost_wakeup_example :
    (in_flight_of gone "a" ≡ 0)
    × (queue_of gone "a" ≡ queue_of handed.ac "a")
    × (tokens "a" gone.sent ≡ 0)
    × (handed.holders "a" ≡ 0)
unfolding release acquire new_controller entered cancel has_chan without_chan same_chan give_back
    queue_of in_flight_of Dict.lookup Dict.insert Dict.delete
lost_wakeup_example = lost_wakeup 1 first handed-Reach refl refl refl refl

-- The second waiter is still there, and no slot is in flight.
still_waiting : queue_of gone "a" ≡ record { serial = 1; prefix = "a" } ∷ []
unfolding release acquire new_controller entered cancel has_chan without_chan same_chan give_back
    queue_of in_flight_of Dict.lookup Dict.insert Dict.delete
still_waiting = refl

admission_safe_example :
    (in_flight_of handed.ac "a" ≡ handed.holders "a" + tokens "a" handed.ac.sent)
    × (in_flight_of handed.ac "a" ≤ 1)
    × (handed.holders "a" ≤ 1)
admission_safe_example = admission_safe 1 handed-Reach "a"

crowded-CalmReach : CalmReach (start 1) crowded
crowded-CalmReach =
    calmly (calmly (calmly still (enter _ "a") tt) (enter _ "a") tt) (enter _ "a") tt

busy_while_waiting_example : 1 ≤ in_flight_of crowded.ac "a"
unfolding release acquire new_controller entered queue_of in_flight_of Dict.lookup Dict.insert
busy_while_waiting_example = busy_while_waiting 1 crowded-CalmReach "a" (λ e. cc)
