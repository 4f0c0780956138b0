-- ===== src/Failure/Tests.antt =====
-- A detector of two nodes. Its phi is the silence over the mean interval, as a whole number.
use magnitude.Common.{
  ℕ, suc, arith, ◌<◌, ◌*◌, ◌/◌, ◌≡◌, refl, Bool, true, false, some, List, [], ◌∷◌, leb,
  string_keyed, replicate,
}
use magnitude.Common.Dict
use magnitude.Failure.{
  start, stop, alive, dead, suspect, TrackedNode, Config, Detector, new, or_default, add_node,
  get_state, made_intervals, store_interval, recovered, record_heartbeat, assessed, stamped,
  check_nodes, check_all, positive, sum,
}
use magnitude.Failure.Lifecycle.{restart_unstoppable}
use magnitude.Failure.Callbacks.{deaths, suspicions, turned, callbacks_exact}
use magnitude.Failure.Runs.{
  add_call, heartbeat_call, check_call, Call, run, call, heartbeat_revives,
}

abbrev phi_of : ℕ → ℕ → ℕ → ℕ
phi_of total count elapsed = elapsed * count / suc total

abbrev at_least_8 : ℕ → Bool
at_least_8 phi = leb 18 phi

abbrev at_least_3 : ℕ → Bool
at_least_3 phi = leb 7 phi

abbrev config : Config
config = record {
  interval = 1;
  timeout = 1;
  suspect_after = 5;
  dead_after = 15;
  on_suspect = true;
  on_dead = true;
}

-- `b` is silent from 2 on.
abbrev calls : List (ℕ × Call)
calls =
    (1, add_call "a" "10.0.0.1")
    ∷ (2, add_call "b" "10.0.0.2")
    ∷ (10, heartbeat_call "a")
    ∷ (12, check_call)
    ∷ []

abbrev node_a : TrackedNode ℕ
node_a = record {
  address = "10.0.0.1";
  state = alive;
  last_seen = 10;
  state_change = 0;
  intervals = 9 ∷ replicate 99 0;
  interval_idx = 1;
  phi = 0;
}

abbrev node_b : TrackedNode ℕ
node_b = record {
  address = "10.0.0.2";
  state = suspect;
  last_seen = 2;
  state_change = 12;
  intervals = [];
  interval_idx = 0;
  phi = 0;
}

abbrev watched : Detector ℕ
watched = record {
  config = config;
  nodes = ("a", node_a) ∷ ("b", node_b) ∷ [];
  running = false;
  closed = false;
}

watched-run : run 0 phi_of at_least_8 at_least_3 (new config) calls ≡ some watched
unfolding run call new or_default add_node record_heartbeat store_interval made_intervals recovered
    check_all check_nodes assessed stamped positive sum Dict.lookup Dict.insert
watched-run = refl

low : (total count bound : ℕ) → 0 < bound → leb bound (phi_of total count 0) ≡ false
low total count bound h =
    let zeroed : 0 * count / suc total ≡ 0 = ground arith in ground (arith, zeroed)

heartbeat_revives_example :
    (d' : Detector ℕ) × (record_heartbeat watched 13 "b" ≡ some d')
    × (get_state d' "b" ≡ alive)
    × (get_state (check_all phi_of at_least_8 at_least_3 d' 13).0 "b" ≡ alive)
unfolding Dict.lookup
heartbeat_revives_example =
    heartbeat_revives 0 phi_of at_least_8 at_least_3 config calls watched 13 "b" node_b watched-run
      refl (λ total count. low total count 18 (omega arith))
      (λ total count. low total count 7 (omega arith))

callbacks_exact_example :
    (deaths "b" (check_all phi_of at_least_8 at_least_3 watched 20).1
      ≡ turned true dead
          (get_state watched "b")
          (get_state (check_all phi_of at_least_8 at_least_3 watched 20).0 "b"))
    × (suspicions "b" (check_all phi_of at_least_8 at_least_3 watched 20).1
        ≡ turned true suspect
            (get_state watched "b")
            (get_state (check_all phi_of at_least_8 at_least_3 watched 20).0 "b"))
unfolding Dict.lookup
callbacks_exact_example =
    callbacks_exact phi_of at_least_8 at_least_3 watched 20 "b" (refl, (refl, tt))

restart_unstoppable_example :
    ((start (stop watched)).0.running ≡ true)
    × ((start (stop watched)).0.closed ≡ true)
    × (stop (start (stop watched)).0 ≡ (start (stop watched)).0)
restart_unstoppable_example = restart_unstoppable watched
