-- ===== src/Cluster/Coordinator.antt =====
-- internal/cluster/coordinator.go: which nodes are alive, and which are on the ring. `now` is the
-- reading of the clock at the call, and never lies before a heartbeat that was recorded.
pub mod Routable
pub mod Health
pub mod Runs
use magnitude.Common.{
  ℕ, ◌-◌, Bool, true, false, not, ◌&&◌, ◌||◌, String, Option, none, some, List, [], ◌∷◌, leb, ◌==◌,
  string_keyed, if◌then◌else◌,
}
use magnitude.Common.Dict
use magnitude.Common.Dict.{Dict}
use magnitude.Common.Result.{Result, ok, err}
use magnitude.Cluster.Ring.{
  HashRing, new_ring, add_node, removal_panics, remove_node, get_node, get_nodes,
}

pub data NodeState : Type 0 where
  alive suspect dead : NodeState

pub record NodeInfo : Type 0 where
  pub id : String
  pub address : String
  pub api_address : String
  pub state : NodeState
  pub last_heartbeat : ℕ
  pub joined_at : ℕ
  pub collections : ℕ

pub record Coordinator : Type 0 where
  pub node_id : String
  pub nodes : Dict String NodeInfo
  pub ring : HashRing
  pub replication_factor : ℕ
  pub heartbeat_timeout : ℕ
  pub dead_timeout : ℕ

pub record CoordinatorConfig : Type 0 where
  pub node_id : String
  pub replication_factor : ℕ
  pub virtual_nodes : ℕ
  pub heartbeat_timeout : ℕ
  pub dead_timeout : ℕ

pub data Error : Type 0 where
  empty_id not_found : Error

abbrev pub is_dead : NodeState → Bool
is_dead dead = true
is_dead _ = false

-- Durations are nanoseconds; one that is not positive takes its default.
unfoldable pub or_default : ℕ → ℕ → ℕ
or_default n d = if leb n 0 then d else n

unfoldable pub new_coordinator : CoordinatorConfig → Coordinator
unfolding or_default
new_coordinator cfg = record {
  node_id = cfg.node_id;
  nodes = [];
  ring = new_ring (or_default cfg.virtual_nodes 150);
  replication_factor = or_default cfg.replication_factor 3;
  heartbeat_timeout = or_default cfg.heartbeat_timeout 5000000000;
  dead_timeout = or_default cfg.dead_timeout 15000000000;
}

module _ (sum32 : String → ℕ) (vnode_name : String → ℕ → String) where
  unfoldable pub join_node : Coordinator → ℕ → String → String → String → Result Error Coordinator
  join_node c now node_id address api_address =
      if node_id == "" then err empty_id else elim (Dict.lookup node_id c.nodes) [
        | some existing ↦ ok (record c {
          nodes =
              Dict.insert node_id
                (record existing {
                  address = address;
                  api_address = api_address;
                  state = alive;
                  last_heartbeat = now;
                })
                c.nodes;
        })
        | none ↦ ok (record c {
          nodes =
              Dict.insert node_id
                (record {
                  id = node_id;
                  address = address;
                  api_address = api_address;
                  state = alive;
                  last_heartbeat = now;
                  joined_at = now;
                  collections = 0;
                })
                c.nodes;
          ring = add_node sum32 vnode_name c.ring node_id;
        })
      ]

  unfoldable pub heartbeat : Coordinator → ℕ → String → Result Error Coordinator
  heartbeat c now node_id = elim (Dict.lookup node_id c.nodes) [
    | none ↦ err not_found
    | some node ↦ ok (record c {
      ring = if is_dead node.state then add_node sum32 vnode_name c.ring node_id else c.ring;
      nodes = Dict.insert node_id (record node { last_heartbeat = now; state = alive }) c.nodes;
    })
  ]

module _ (sum32 : String → ℕ) where
  unfoldable pub route_collection : Coordinator → String → String
  route_collection c collection_id = get_node sum32 c.ring collection_id

  unfoldable pub route_collection_replicas : Coordinator → String → List String
  route_collection_replicas c collection_id =
      get_nodes sum32 c.ring collection_id c.replication_factor

unfoldable pub leave_node : Coordinator → String → Result Error Coordinator
leave_node c node_id = elim (Dict.lookup node_id c.nodes) [
  | none ↦ err not_found
  | some _ ↦
      ok (record c { nodes = Dict.delete node_id c.nodes; ring = remove_node c.ring node_id })
]

-- The body of the loop of `CheckHealth` for one node: its new state, and the ring.
unfoldable pub checked_state : Coordinator → ℕ → ℕ → NodeState
checked_state c now last_heartbeat =
    if leb c.dead_timeout (now - last_heartbeat)
    then dead
    else if leb c.heartbeat_timeout (now - last_heartbeat)
    then suspect
    else alive

unfoldable pub checked_ring : Coordinator → ℕ → HashRing → NodeInfo → HashRing
checked_ring c now ring node =
    if leb c.dead_timeout (now - node.last_heartbeat)
    then (if is_dead node.state then ring else remove_node ring node.id)
    else ring

-- The loop over the nodes of the map.
unfoldable pub check_nodes :
    Coordinator → ℕ → HashRing → Dict String NodeInfo → HashRing × Dict String NodeInfo
unfolding checked_state checked_ring
check_nodes c now ring [] = (ring, [])
check_nodes c now ring ((id, node) ∷ rest) =
    let (ring', checked) = check_nodes c now (checked_ring c now ring node) rest in
    (ring', (id, record node { state = checked_state c now node.last_heartbeat }) ∷ checked)

-- Whether a removal of the loop panics.
unfoldable pub check_panics : Coordinator → ℕ → HashRing → Dict String NodeInfo → Bool
check_panics c now ring [] = false
check_panics c now ring ((id, node) ∷ rest) =
    (leb c.dead_timeout (now - node.last_heartbeat)
      && not (is_dead node.state)
      && removal_panics ring node.id)
    || check_panics c now (checked_ring c now ring node) rest

-- The result where no removal panics.
unfoldable pub check_health : Coordinator → ℕ → Coordinator
unfolding check_nodes
check_health c now =
    let (ring, nodes) = check_nodes c now c.ring c.nodes in record c { ring = ring; nodes = nodes }
