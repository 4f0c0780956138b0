-- ===== src/Cluster/Tests.antt =====
-- A cluster of two nodes with two virtual nodes each.
use magnitude.Common.{
  ℕ, zero, suc, sym, ◌≤◌, ◌<◌, ◌≡◌, ◌≢◌, refl, true, false, String, some, List, [], ◌∷◌, length,
  arith, ◌==◌, nat_keyed, string_keyed, if◌then◌else◌,
}
use magnitude.Common.Dict
use magnitude.Common.Dict.{Dict}
use magnitude.Common.Keys.{has, IsOnce}
use magnitude.Cluster.Ring.{
  HashRing, new_ring, is_member, insert_sorted, sort, taken_by_other, add_vnode, add_vnodes,
  add_node, keep_others, removal_panics, remove_node, get_node, get_nodes,
}
use magnitude.Cluster.Ring.Owners.{IsLinked, NoSelfCollision}
use magnitude.Cluster.Ring.Routing.{
  Change, join, depart, change, Apart, new_ring-IsLinked, run-IsLinked, routed_to_member,
}
use magnitude.Cluster.Ring.Replicas.{get_nodes_replicas}
use magnitude.Cluster.Ring.Routing.{run as run_ring}
use magnitude.Cluster.Rendezvous
use magnitude.Cluster.Rendezvous.{
  RendezvousRouter, new_router, sort_strings, contest, contests, route,
}
use magnitude.Cluster.Rendezvous.Owner.{departure_moves_own_keys}
use magnitude.Cluster.Coordinator.{
  alive, dead, NodeInfo, Coordinator, CoordinatorConfig, or_default, new_coordinator, join_node,
  heartbeat, check_health, checked_state, checked_ring, check_nodes, check_panics, route_collection,
}
use magnitude.Cluster.Coordinator.Routable.{
  IsRoutable, routable, Call, call, join_call, heartbeat_call, check_call,
}
use magnitude.Cluster.Coordinator.Runs.{
  run, ended, Orderly, run-IsRoutable, new_coordinator-IsRoutable, ring_of_living, routed_to_living,
  state_of, rejoin_unrouted,
}

abbrev vnode_name : String → ℕ → String
vnode_name id i =
    if id == "a" then (if i == 0 then "a#0" else "a#1") else (if i == 0 then "b#0" else "b#1")

abbrev sum32 : String → ℕ
sum32 s = if s == "a#0" then 10 else if s == "b#0" then 20 else if s == "a#1" then 30 else 40

two_apart : (f : ℕ → ℕ) → f 0 ≢ f 1 → (i j : ℕ) → i < 2 → j < 2 → f i ≡ f j → i ≡ j
two_apart f d zero zero l m e = refl
two_apart f d zero (suc zero) l m e = absurd (d e)
two_apart f d (suc zero) zero l m e = absurd (d (sym e))
two_apart f d (suc zero) (suc zero) l m e = refl
two_apart f d zero (suc (suc j)) l m e = absurd (omega arith)
two_apart f d (suc zero) (suc (suc j)) l m e = absurd (omega arith)
two_apart f d (suc (suc i)) j l m e = absurd (omega arith)

a_apart : NoSelfCollision sum32 vnode_name 2 "a"
a_apart = two_apart (λ i. sum32 (vnode_name "a" i)) (omega arith)

b_apart : NoSelfCollision sum32 vnode_name 2 "b"
b_apart = two_apart (λ i. sum32 (vnode_name "b" i)) (omega arith)

abbrev changes : List Change
changes = join "a" ∷ join "b" ∷ depart "a" ∷ join "a" ∷ []

changes-Apart : Apart sum32 vnode_name (new_ring 2) changes
unfolding Apart new_ring add_node add_vnodes add_vnode taken_by_other remove_node removal_panics
    keep_others sort insert_sorted is_member Dict.lookup Dict.insert Dict.delete
changes-Apart = (a_apart, (b_apart, (refl, (a_apart, tt))))

routed_to_member_example :
    is_member
      (run_ring sum32 vnode_name (new_ring 2) changes)
      (get_node sum32 (run_ring sum32 vnode_name (new_ring 2) changes) "items")
    ≡ true
unfolding run_ring change new_ring add_node add_vnodes add_vnode taken_by_other remove_node
    keep_others sort insert_sorted is_member Dict.lookup Dict.insert Dict.delete
routed_to_member_example =
    routed_to_member sum32 vnode_name 2 changes "items" changes-Apart (omega arith)

-- The replicas of a collection on the ring of the changes.
abbrev two_nodes : HashRing
two_nodes = run_ring sum32 vnode_name (new_ring 2) changes

get_nodes_replicas_example :
    IsOnce (get_nodes sum32 two_nodes "items" 2)
    × (length (get_nodes sum32 two_nodes "items" 2) ≤ 2)
    × ((j : String)
        → has j (get_nodes sum32 two_nodes "items" 2) ≡ true
        → is_member two_nodes j ≡ true)
    × ((tail : List String) × (get_nodes sum32 two_nodes "items" 2
          ≡ get_node sum32 two_nodes "items" ∷ tail))
unfolding run_ring change new_ring add_node add_vnodes add_vnode taken_by_other remove_node
    keep_others sort insert_sorted is_member Dict.lookup Dict.insert Dict.delete
get_nodes_replicas_example =
    get_nodes_replicas sum32 two_nodes "items" 2
      (run-IsLinked sum32 vnode_name (new_ring 2) changes changes-Apart
        (new_ring-IsLinked sum32 vnode_name 2))
      (omega arith) (omega arith)

abbrev config : CoordinatorConfig
config = record {
  node_id = "a";
  replication_factor = 2;
  virtual_nodes = 2;
  heartbeat_timeout = 5;
  dead_timeout = 15;
}

-- `b` falls silent, and the check at time 21 finds it dead.
abbrev calls : List (ℕ × Call)
calls =
    (0, join_call "a" "10.0.0.1" "")
    ∷ (1, join_call "b" "10.0.0.2" "")
    ∷ (20, heartbeat_call "a")
    ∷ (0, check_call)
    ∷ []

calls-Orderly : Orderly sum32 vnode_name (new_coordinator config) 0 calls
unfolding Orderly check_panics checked_ring removal_panics call new_coordinator or_default new_ring
    join_node heartbeat add_node add_vnodes add_vnode taken_by_other sort insert_sorted is_member
    Dict.lookup Dict.insert
calls-Orderly = (λ n e. cc, a_apart, (λ n e. cc, b_apart, (tt, a_apart, (tt, refl, tt))))

abbrev aged : Coordinator
aged = run sum32 vnode_name (new_coordinator config) 0 calls

ring_of_living_example : is_member aged.ring "b" ≡ routable (Dict.lookup "b" aged.nodes)
ring_of_living_example = ring_of_living sum32 vnode_name config 0 calls "b" calls-Orderly

routed_to_living_example :
    routable (Dict.lookup (route_collection sum32 aged "items") aged.nodes) ≡ true
unfolding run call new_coordinator or_default new_ring join_node heartbeat check_health check_nodes
    checked_state checked_ring add_node add_vnodes add_vnode taken_by_other remove_node keep_others
    sort insert_sorted is_member Dict.lookup Dict.insert Dict.delete
routed_to_living_example =
    routed_to_living sum32 vnode_name config 0 calls "items" calls-Orderly (omega arith)

aged-IsRoutable : IsRoutable 21 aged × IsLinked aged.ring
unfolding ended
aged-IsRoutable =
    let (v, l) = new_coordinator-IsRoutable sum32 vnode_name config 0 in
    run-IsRoutable sum32 vnode_name (new_coordinator config) 0 calls calls-Orderly v l

abbrev silent_node : NodeInfo
silent_node = record {
  id = "b";
  address = "10.0.0.2";
  api_address = "";
  state = dead;
  last_heartbeat = 1;
  joined_at = 1;
  collections = 0;
}

abbrev again : Coordinator
again = call sum32 vnode_name aged 30 (join_call "b" "10.0.0.3" "")

rejoin_unrouted_example :
    (state_of again "b" ≡ some alive)
    × (is_member again.ring "b" ≡ false)
    × ((collection_id : String) → route_collection sum32 again collection_id ≢ "b")
    × (state_of (call sum32 vnode_name again 31 (heartbeat_call "b")) "b" ≡ some alive)
    × (is_member (call sum32 vnode_name again 31 (heartbeat_call "b")).ring "b" ≡ false)
    × ((collection_id : String)
        → route_collection sum32 (call sum32 vnode_name again 31 (heartbeat_call "b")) collection_id
          ≢ "b")
unfolding run call new_coordinator or_default new_ring join_node heartbeat check_health check_nodes
    checked_state checked_ring add_node add_vnodes add_vnode taken_by_other remove_node keep_others
    sort insert_sorted is_member Dict.lookup Dict.insert Dict.delete
rejoin_unrouted_example =
    rejoin_unrouted sum32 vnode_name 21 30 31 aged "b" "10.0.0.3" "" silent_node aged-IsRoutable.0
      refl refl refl aged-IsRoutable.1

-- `b` loses a position to `a`; once `a` is gone, the ring has fewer positions than `vnodes`, and the
-- removal of `b` panics.
abbrev colliding : String → ℕ
colliding s = if s == "a#0" then 10 else if s == "b#0" then 10 else if s == "a#1" then 30 else 40

collision_panics :
    removal_panics
      (run_ring colliding vnode_name (new_ring 2) (join "a" ∷ join "b" ∷ depart "a" ∷ []))
      "b"
    ≡ true
unfolding run_ring change new_ring add_node add_vnodes add_vnode taken_by_other remove_node
    removal_panics keep_others sort insert_sorted is_member Dict.lookup Dict.insert Dict.delete
collision_panics = refl

-- Weights of `a`, `b` and `c` for every key.
abbrev weight : String → String → ℕ
weight node key = if node == "a" then 3 else if node == "b" then 7 else 5

abbrev pool : RendezvousRouter
pool = new_router ("c" ∷ "a" ∷ "b" ∷ [])

departure_moves_own_keys_example :
    route weight (Rendezvous.remove_node pool "a") "items" ≡ route weight pool "items"
unfolding new_router sort_strings Rendezvous.insert_sorted has route contests contest
departure_moves_own_keys_example = departure_moves_own_keys weight "items" pool "a" refl refl
