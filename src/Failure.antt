-- ===== src/Failure.antt =====
-- internal/failure/detector.go: which nodes answer. `now` is the reading of the clock at a call,
-- durations are nanoseconds, and no reading lies before one that was stored. The phi of float64
-- and its two tests are parameters. The order of `range d.nodes` is that of the association list.
pub mod Heartbeats
pub mod Runs
pub mod Callbacks
pub mod Lifecycle
mod Tests
use magnitude.Common.{
  ℕ, suc, ◌+◌, ◌-◌, ◌%◌, Bool, true, false, not, ◌&&◌, String, Option, none, some, List, [], ◌∷◌,
  ◌++◌, length, set, replicate, ltb, leb, string_keyed, if◌then◌else◌,
}
use magnitude.Common.Dict
use magnitude.Common.Dict.{Dict}

pub data NodeState : Type 0 where
  unknown alive suspect dead : NodeState

abbrev pub same_state : NodeState → NodeState → Bool
same_state unknown unknown = true
same_state alive alive = true
same_state suspect suspect = true
same_state dead dead = true
same_state _ _ = false

-- `intervals` is empty where the code has nil.
pub record TrackedNode (F : Type 0) : Type 0 where
  pub address : String
  pub state : NodeState
  pub last_seen : ℕ
  pub state_change : ℕ
  pub intervals : List ℕ
  pub interval_idx : ℕ
  pub phi : F

-- `on_suspect` and `on_dead` tell whether the callback is there.
pub record Config : Type 0 where
  pub interval : ℕ
  pub timeout : ℕ
  pub suspect_after : ℕ
  pub dead_after : ℕ
  pub on_suspect : Bool
  pub on_dead : Bool

-- `closed` tells whether `stopOnce` has run, which closes `stopCh`.
pub record Detector (F : Type 0) : Type 0 where
  pub config : Config
  pub nodes : Dict String (TrackedNode F)
  pub running : Bool
  pub closed : Bool

pub data Callback : Type 0 where
  node_suspect node_dead : String → Callback

unfoldable pub or_default : ℕ → ℕ → ℕ
or_default n d = if leb n 0 then d else n

abbrev pub with_defaults : Config → Config
with_defaults cfg = record cfg {
  interval = or_default cfg.interval 1000000000;
  suspect_after = or_default cfg.suspect_after 5000000000;
  dead_after = or_default cfg.dead_after 15000000000;
}

-- The entries that hold an interval, which phi is computed from.
unfoldable pub positive : List ℕ → List ℕ
positive [] = []
positive (inv ∷ rest) = let others = positive rest in if ltb 0 inv then inv ∷ others else others

unfoldable pub sum : List ℕ → ℕ
sum [] = 0
sum (inv ∷ rest) = inv + sum rest

module _ {F : Type 0} where
  unfoldable pub new : Config → Detector F
  unfolding or_default
  new cfg = record { config = with_defaults cfg; nodes = []; running = false; closed = false }

  -- The detector, and whether a check loop was started.
  unfoldable pub start : Detector F → Detector F × Bool
  start d = if d.running then (d, false) else (record d { running = true }, true)

  unfoldable pub stop : Detector F → Detector F
  stop d = if d.closed then d else record d { running = false; closed = true }

  -- `fresh` is the zero of float64.
  unfoldable pub add_node : F → Detector F → ℕ → String → String → Detector F
  add_node fresh d now node_id address =
      let node : TrackedNode F = record {
        address = address;
        state = alive;
        last_seen = now;
        state_change = 0;
        intervals = [];
        interval_idx = 0;
        phi = fresh;
      } in
      record d { nodes = Dict.insert node_id node d.nodes }

  unfoldable pub remove_node : Detector F → String → Detector F
  remove_node d node_id = record d { nodes = Dict.delete node_id d.nodes }

  unfoldable pub get_state : Detector F → String → NodeState
  get_state d node_id = elim (Dict.lookup node_id d.nodes) [
    | none ↦ unknown
    | some node ↦ node.state
  ]

  -- `node.intervals`, made on the first heartbeat.
  unfoldable pub made_intervals : TrackedNode F → List ℕ
  made_intervals node = elim node.intervals [ [] ↦ replicate 100 0 | inv ∷ rest ↦ inv ∷ rest ]

  -- The assignment to `node.intervals[node.intervalIdx]`; `none` is the panic of an index out of
  -- range.
  unfoldable pub store_interval : TrackedNode F → ℕ → Option (TrackedNode F)
  unfolding made_intervals
  store_interval node elapsed =
      if ltb 0 elapsed && ltb elapsed 300000000000
      then (if ltb node.interval_idx (length (made_intervals node))
          then some (record node {
            intervals = set (made_intervals node) node.interval_idx elapsed;
            interval_idx = (node.interval_idx + 1) % 100;
          })
          else none)
      else some (record node { intervals = made_intervals node })

  unfoldable pub recovered : ℕ → TrackedNode F → TrackedNode F
  recovered now node =
      if not (same_state node.state alive)
      then record node { state = alive; state_change = now }
      else node

  -- `none` is a panic.
  unfoldable pub record_heartbeat : Detector F → ℕ → String → Option (Detector F)
  unfolding store_interval recovered
  record_heartbeat d now node_id = elim (Dict.lookup node_id d.nodes) [
    | none ↦ some d
    | some node ↦ elim (store_interval node (now - node.last_seen)) [
      | none ↦ none
      | some stored ↦ some (record d {
        nodes = Dict.insert node_id (recovered now (record stored { last_seen = now })) d.nodes;
      })
    ]
  ]

  unfoldable pub stamped : ℕ → TrackedNode F → TrackedNode F → TrackedNode F
  stamped now before after =
      if same_state after.state before.state then after else record after { state_change = now }

-- The callbacks that a transition starts.
unfoldable pub fired : Config → String → NodeState → NodeState → List Callback
fired cfg node_id before after = if same_state after before then [] else elim after [
  | suspect ↦ if cfg.on_suspect then node_suspect node_id ∷ [] else []
  | dead ↦ if cfg.on_dead then node_dead node_id ∷ [] else []
  | alive ↦ []
  | unknown ↦ []
]

-- Phi from the sum of the intervals, their number and the silence, and whether a phi is 8.0 or
-- more, and 3.0 or more.
module _ {F : Type 0} (phi_of : ℕ → ℕ → ℕ → F) (at_least_8 at_least_3 : F → Bool) where
  -- The body of the loop of `checkAll` up to the callbacks: the node's phi and its new state.
  unfoldable pub assessed : Config → ℕ → TrackedNode F → TrackedNode F
  unfolding positive sum
  assessed cfg now node =
      let elapsed = now - node.last_seen in
      let count = length (positive node.intervals) in
      if ltb count 10
      then record node {
        state =
            if leb cfg.dead_after elapsed
            then dead
            else if leb cfg.suspect_after elapsed
            then suspect
            else alive;
      }
      else let phi = phi_of (sum (positive node.intervals)) count elapsed in
        record node {
          phi = phi;
          state = if at_least_8 phi then dead else if at_least_3 phi then suspect else alive;
        }

  unfoldable pub check_nodes :
      Config → ℕ → Dict String (TrackedNode F) → Dict String (TrackedNode F) × List Callback
  unfolding assessed stamped fired
  check_nodes cfg now [] = ([], [])
  check_nodes cfg now ((id, node) ∷ rest) =
      let after = assessed cfg now node in
      let (checked, calls) = check_nodes cfg now rest in
      ((id, stamped now node after) ∷ checked, fired cfg id node.state after.state ++ calls)

  unfoldable pub check_all : Detector F → ℕ → Detector F × List Callback
  unfolding check_nodes
  check_all d now =
      let (nodes, calls) = check_nodes d.config now d.nodes in (record d { nodes = nodes }, calls)
