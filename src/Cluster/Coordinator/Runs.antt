-- ===== src/Cluster/Coordinator/Runs.antt =====
-- Sequences of calls of the coordinator, each some time after the one before.
use magnitude.Common.{
  ℕ, ◌+◌, length, sym, ap, ◌∙◌, ◌≤◌, ◌≡◌, ◌≢◌, refl, true, false, String, Option, none, some, List,
  [], ◌∷◌, ◌==◌, nat_keyed, string_keyed, arith, Bool-cases, Option-cases, inl, inr,
}
use text.Mathlib.TextEquality.{eq_iff}
use magnitude.Common.Dict
use magnitude.Common.Dict.{Dict}
use magnitude.Cluster.Ring.{new_ring, is_member}
use magnitude.Cluster.Coordinator.{
  NodeState, alive, dead, NodeInfo, Coordinator, CoordinatorConfig, new_coordinator, is_dead,
  join_node, heartbeat, leave_node, check_health,
}
use magnitude.Cluster.Ring.{get_node, removal_panics}
use magnitude.Cluster.Coordinator.{route_collection, or_default, check_panics}
use magnitude.Cluster.Ring.Owners.{IsLinked, NoSelfCollision, add_node-IsLinked}
use magnitude.Cluster.Ring.Removal.{remove_node-IsLinked}
use magnitude.Cluster.Ring.Routing.{new_ring-IsLinked, get_node-is_member}
use magnitude.Cluster.Coordinator.Routable.{
  IsRoutable, routable, Call, join_call, heartbeat_call, leave_call, check_call, kept, call,
  NoDeadRejoin, later-IsRoutable, heartbeat-IsRoutable, join_node-IsRoutable, leave_node-IsRoutable,
}
use magnitude.Cluster.Coordinator.Health.{check_health-IsRoutable, check_nodes-IsLinked}

abbrev state_at : Option NodeInfo → Option NodeState
state_at none = none
state_at (some node) = some node.state

abbrev pub state_of : Coordinator → String → Option NodeState
state_of c id = state_at (Dict.lookup id c.nodes)

module _ (sum32 : String → ℕ) (vnode_name : String → ℕ → String) where
  call-IsRoutable :
      (t now : ℕ) (c : Coordinator) (x : Call)
      → t ≤ now
      → NoDeadRejoin c x
      → IsRoutable t c
      → IsRoutable now (call sum32 vnode_name c now x)
  unfolding call
  call-IsRoutable t now c (join_call id a b) later living v =
      join_node-IsRoutable sum32 vnode_name now c (later-IsRoutable t now c later v) id a b living
  call-IsRoutable t now c (heartbeat_call id) later living v =
      heartbeat-IsRoutable sum32 vnode_name now c (later-IsRoutable t now c later v) id
  call-IsRoutable t now c (leave_call id) later living v =
      leave_node-IsRoutable sum32 vnode_name now c (later-IsRoutable t now c later v) id
  call-IsRoutable t now c check_call later living v =
      check_health-IsRoutable c now (later-IsRoutable t now c later v)

  -- The node that a call may put on the ring has virtual nodes whose positions differ, and no
  -- removal panics.
  abbrev pub Fresh : Coordinator → ℕ → Call → Type 0
  Fresh c now (join_call id _ _) = NoSelfCollision sum32 vnode_name c.ring.vnodes id
  Fresh c now (heartbeat_call id) = NoSelfCollision sum32 vnode_name c.ring.vnodes id
  Fresh c now (leave_call id) = removal_panics c.ring id ≡ false
  Fresh c now check_call = check_panics c now c.ring c.nodes ≡ false

  call-IsLinked :
      (now : ℕ) (c : Coordinator) (x : Call)
      → Fresh c now x
      → IsLinked c.ring
      → IsLinked (call sum32 vnode_name c now x).ring
  unfolding call join_node heartbeat leave_node check_health
  call-IsLinked now c (join_call id a b) fresh v = elim (Bool-cases (id == "")) [
    | inl empty ↦ rw (empty, kept) v
    | inr named ↦ elim (Option-cases (Dict.lookup id c.nodes)) [
      | inl unknown ↦
          rw (named, unknown, kept) (add_node-IsLinked sum32 vnode_name c.ring id fresh v)
      | inr (node, known) ↦ rw (named, known, kept) v
    ]
  ]
  call-IsLinked now c (heartbeat_call id) fresh v = elim (Option-cases (Dict.lookup id c.nodes)) [
    | inl unknown ↦ rw (unknown, kept) v
    | inr (node, known) ↦ elim (Bool-cases (is_dead node.state)) [
      | inl gone ↦ rw (known, gone, kept) (add_node-IsLinked sum32 vnode_name c.ring id fresh v)
      | inr living ↦ rw (known, living, kept) v
    ]
  ]
  call-IsLinked now c (leave_call id) fresh v = elim (Option-cases (Dict.lookup id c.nodes)) [
    | inl unknown ↦ rw (unknown, kept) v
    | inr (node, known) ↦ rw (known, kept) (remove_node-IsLinked c.ring id v)
  ]
  call-IsLinked now c check_call fresh v = check_nodes-IsLinked c now c.ring c.nodes v

  -- A call, and the time since the call before it.
  unfoldable pub run : Coordinator → ℕ → List (ℕ × Call) → Coordinator
  run c t [] = c
  run c t ((delay, x) ∷ xs) = run (call sum32 vnode_name c (t + delay) x) (t + delay) xs

  unfoldable pub ended : ℕ → List (ℕ × Call) → ℕ
  ended t [] = t
  ended t ((delay, x) ∷ xs) = ended (t + delay) xs

  -- No call of the sequence makes a dead node join again, meets a collision or panics.
  unfoldable pub Orderly : Coordinator → ℕ → List (ℕ × Call) → Type 0
  Orderly c t [] = Unit
  Orderly c t ((delay, x) ∷ xs) =
      NoDeadRejoin c x
      × Fresh c (t + delay) x
      × Orderly (call sum32 vnode_name c (t + delay) x) (t + delay) xs

  pub run-IsRoutable :
      (c : Coordinator) (t : ℕ) (xs : List (ℕ × Call))
      → Orderly c t xs
      → IsRoutable t c
      → IsLinked c.ring
      → IsRoutable (ended t xs) (run c t xs) × IsLinked (run c t xs).ring
  unfolding run ended Orderly
  run-IsRoutable c t [] o v l = (v, l)
  run-IsRoutable c t ((delay, x) ∷ xs) (living, fresh, o) v l =
      run-IsRoutable (call sum32 vnode_name c (t + delay) x) (t + delay) xs o
        (call-IsRoutable t (t + delay) c x (omega arith) living v)
        (call-IsLinked (t + delay) c x fresh l)

  pub new_coordinator-IsRoutable :
      (cfg : CoordinatorConfig) (t : ℕ)
      → IsRoutable t (new_coordinator cfg) × IsLinked (new_coordinator cfg).ring
  unfolding new_coordinator new_ring Dict.lookup is_member
  new_coordinator-IsRoutable cfg t = (
    record { members = λ j. refl; named = λ j n e. cc; silent = λ j n e d. cc; distinct = tt },
    new_ring-IsLinked sum32 vnode_name (or_default cfg.virtual_nodes 150),
  )

  -- After any orderly sequence of joins, heartbeats, departures and health checks on a new
  -- coordinator, the ring holds exactly the registered nodes that are not dead.
  pub ring_of_living :
      (cfg : CoordinatorConfig) (t : ℕ) (xs : List (ℕ × Call)) (id : String)
      → Orderly (new_coordinator cfg) t xs
      → is_member (run (new_coordinator cfg) t xs).ring id
        ≡ routable (Dict.lookup id (run (new_coordinator cfg) t xs).nodes)
  ring_of_living cfg t xs id o =
      let (v, l) = new_coordinator-IsRoutable cfg t in
      (run-IsRoutable (new_coordinator cfg) t xs o v l).0.members id

  -- After any orderly sequence of calls on a new coordinator that leaves the ring non-empty, every
  -- collection is routed to a registered node that is not dead.
  pub routed_to_living :
      (cfg : CoordinatorConfig) (t : ℕ) (xs : List (ℕ × Call)) (collection_id : String)
      → Orderly (new_coordinator cfg) t xs
      → length (run (new_coordinator cfg) t xs).ring.ring ≢ 0
      → routable (
          Dict.lookup
            (route_collection sum32 (run (new_coordinator cfg) t xs) collection_id)
            (run (new_coordinator cfg) t xs).nodes)
        ≡ true
  unfolding route_collection
  routed_to_living cfg t xs collection_id o nonempty =
      let (v, l) = new_coordinator-IsRoutable cfg t in
      let c = run (new_coordinator cfg) t xs in
      sym (ring_of_living cfg t xs (get_node sum32 c.ring collection_id) o)
      ∙ get_node-is_member sum32 c.ring collection_id
          (run-IsRoutable (new_coordinator cfg) t xs o v l).1 nonempty

  known_after :
      (id : String) (node : NodeInfo) (nodes : Dict String NodeInfo)
      → Dict.lookup id (Dict.insert id node nodes) ≡ some node
  known_after id node nodes = ground (arith, eq_iff id id, Dict.lookup-insert id id node nodes)

  dead_unroutable : (node : NodeInfo) → node.state ≡ dead → routable (some node) ≡ false
  dead_unroutable node e = ground (arith, e)

  abbrev beaten : ℕ → NodeInfo → NodeInfo
  beaten now node = record node { last_heartbeat = now; state = alive }

  abbrev rejoined : ℕ → String → String → NodeInfo → NodeInfo
  rejoined now address api_address node = record node {
    address = address;
    api_address = api_address;
    state = alive;
    last_heartbeat = now;
  }

  call-rejoin :
      (now : ℕ) (c : Coordinator) (id address api_address : String) (node : NodeInfo)
      → (id == "") ≡ false
      → Dict.lookup id c.nodes ≡ some node
      → call sum32 vnode_name c now (join_call id address api_address)
        ≡ record c { nodes = Dict.insert id (rejoined now address api_address node) c.nodes }
  unfolding call join_node
  call-rejoin now c id address api_address node named known = rw (named, known, kept) refl

  call-beat :
      (now : ℕ) (c : Coordinator) (id : String) (node : NodeInfo)
      → Dict.lookup id c.nodes ≡ some node
      → is_dead node.state ≡ false
      → call sum32 vnode_name c now (heartbeat_call id)
        ≡ record c { nodes = Dict.insert id (beaten now node) c.nodes }
  unfolding call heartbeat
  call-beat now c id node known living = rw (known, living, kept) refl

  -- A ring that does not have a named node routes no collection to it.
  unrouted :
      (c : Coordinator) (id collection_id : String)
      → IsLinked c.ring
      → (id == "") ≡ false
      → is_member c.ring id ≡ false
      → route_collection sum32 c collection_id ≢ id
  unfolding route_collection get_node
  unrouted c id collection_id l named absent routed = elim (Bool-cases (length c.ring.ring == 0)) [
    | inl bare ↦ ground (arith, bare, routed, named, eq_iff id "")
    | inr filled ↦ ground (
      arith,
      absent,
      ap (is_member c.ring) routed,
      get_node-is_member sum32 c.ring collection_id l,
      filled,
    )
  ]

  -- Of a coordinator whose ring is linked and holds the nodes that are not dead: a dead node, its name
  -- not empty, that joins again is alive but not on the ring, and no collection is routed to it. Its
  -- next heartbeat does not change that.
  pub rejoin_unrouted :
      (t now later : ℕ) (c : Coordinator) (id address api_address : String) (node : NodeInfo)
      → IsRoutable t c
      → (id == "") ≡ false
      → Dict.lookup id c.nodes ≡ some node
      → node.state ≡ dead
      → IsLinked c.ring
      → let joined = call sum32 vnode_name c now (join_call id address api_address) in
        let beaten = call sum32 vnode_name joined later (heartbeat_call id) in
        (state_of joined id ≡ some alive)
        × (is_member joined.ring id ≡ false)
        × ((collection_id : String) → route_collection sum32 joined collection_id ≢ id)
        × (state_of beaten id ≡ some alive)
        × (is_member beaten.ring id ≡ false)
        × ((collection_id : String) → route_collection sum32 beaten collection_id ≢ id)
  rejoin_unrouted t now later c id address api_address node v named known gone linked =
      let back = rejoined now address api_address node in
      let entered = known_after id back c.nodes in
      let absent = v.members id ∙ ap routable known ∙ dead_unroutable node gone in
      let joined : Coordinator = record c { nodes = Dict.insert id back c.nodes } in
      let again : Coordinator = record c {
        nodes = Dict.insert id (beaten later back) joined.nodes;
      } in
      rw
        (
          call-rejoin now c id address api_address node named known,
          call-beat later joined id back entered refl,
        )
        (
          ap state_at entered,
          absent,
          λ collection_id. unrouted joined id collection_id linked named absent,
          ap state_at (known_after id (beaten later back) joined.nodes),
          absent,
          λ collection_id. unrouted again id collection_id linked named absent,
        )
