-- ===== src/Cluster/Coordinator/Health.antt =====
-- What a health check does to the nodes and to the ring.
use magnitude.Common.{
  ℕ, ◌-◌, ◌≡◌, refl, Bool, false, not, ◌&&◌, String, Option, none, some, [], ◌∷◌, leb, string_keyed,
  if◌then◌else◌, arith, Bool-cases, Option-cases, inl, inr,
}
use text.Mathlib.TextEquality.{eq_iff}
use magnitude.Common.Dict
use magnitude.Common.Dict.{Dict}
use magnitude.Cluster.Ring.{HashRing, is_member}
use magnitude.Cluster.Ring.Removal.{remove_node-is_member}
use magnitude.Cluster.Coordinator.{
  NodeInfo, Coordinator, is_dead, checked_state, checked_ring, check_nodes, check_health,
}
use magnitude.Cluster.Coordinator.Routable.{IsRoutable, routable}
use magnitude.Cluster.Ring.Owners.{IsLinked}
use magnitude.Cluster.Ring.Removal.{remove_node-IsLinked}

-- What `CheckHealth` does to one node, and to its membership.
abbrev checked : Coordinator → ℕ → Option NodeInfo → Option NodeInfo
checked c now none = none
checked c now (some node) = some (record node { state = checked_state c now node.last_heartbeat })

abbrev stays : Coordinator → ℕ → Option NodeInfo → Bool → Bool
stays c now none member = member
stays c now (some node) member =
    if leb c.dead_timeout (now - node.last_heartbeat) && not (is_dead node.state)
    then false
    else member

module _ (c : Coordinator) (now : ℕ) where
  lookup-check_nodes :
      (ring : HashRing) (id : String) (nodes : Dict String NodeInfo)
      → Dict.lookup id (check_nodes c now ring nodes).1 ≡ checked c now (Dict.lookup id nodes)
  unfolding check_nodes Dict.lookup
  lookup-check_nodes ring id [] = refl
  lookup-check_nodes ring id ((at, node) ∷ rest) =
      ground (arith, lookup-check_nodes (checked_ring c now ring node) id rest)

  check_nodes-IsDistinct :
      (ring : HashRing) (nodes : Dict String NodeInfo)
      → Dict.IsDistinct nodes
      → Dict.IsDistinct (check_nodes c now ring nodes).1
  unfolding check_nodes
  check_nodes-IsDistinct ring [] d = tt
  check_nodes-IsDistinct ring ((at, node) ∷ rest) d = (
    ground (arith, d.0, lookup-check_nodes (checked_ring c now ring node) at rest),
    check_nodes-IsDistinct (checked_ring c now ring node) rest d.1,
  )

  check_nodes-is_member :
      (ring : HashRing) (id : String) (nodes : Dict String NodeInfo)
      → Dict.IsDistinct nodes
      → ((j : String) (n : NodeInfo) → Dict.lookup j nodes ≡ some n → n.id ≡ j)
      → is_member (check_nodes c now ring nodes).0 id
        ≡ stays c now (Dict.lookup id nodes) (is_member ring id)
  unfolding check_nodes Dict.lookup checked_ring
  check_nodes-is_member ring id [] d named = refl
  check_nodes-is_member ring id ((at, node) ∷ rest) d named = ground (
    arith,
    d.0,
    eq_iff at id,
    eq_iff at at,
    named at node,
    remove_node-is_member ring node.id id,
    check_nodes-is_member (checked_ring c now ring node) id rest d.1
        (λ j n e. ground (arith, d.0, eq_iff at j, named j n)),
  )

  -- A node of the checked map comes from one of the map before.
  was_known :
      (id : String) (n : NodeInfo)
      → Dict.lookup id (check_nodes c now c.ring c.nodes).1 ≡ some n
      → (old : NodeInfo) × (Dict.lookup id c.nodes ≡ some old)
        × (n ≡ record old { state = checked_state c now old.last_heartbeat })
  was_known id n e = elim (Option-cases (Dict.lookup id c.nodes)) [
    | inl unknown ↦ absurd (ground (arith, lookup-check_nodes c.ring id c.nodes))
    | inr (old, known) ↦ (old, known, ground (arith, lookup-check_nodes c.ring id c.nodes))
  ]

  check_health-members :
      IsRoutable now c
      → (id : String)
      → is_member (check_health c now).ring id
        ≡ routable (Dict.lookup id (check_health c now).nodes)
  unfolding check_health checked_state
  check_health-members v id = elim (Option-cases (Dict.lookup id c.nodes)) [
    | inl unknown ↦ ground (
      arith,
      v.members id,
      check_nodes-is_member c.ring id c.nodes v.distinct v.named,
      lookup-check_nodes c.ring id c.nodes,
    )
    | inr (old, known) ↦ ground (
      arith,
      v.members id,
      v.silent id old known,
      check_nodes-is_member c.ring id c.nodes v.distinct v.named,
      lookup-check_nodes c.ring id c.nodes,
    )
  ]

  pub check_health-IsRoutable : IsRoutable now c → IsRoutable now (check_health c now)
  unfolding check_health checked_state
  check_health-IsRoutable v = record {
    members = check_health-members v;
    named =
        λ j n e. (let (old, known, same) = was_known j n e in ground (arith, v.named j old known));
    silent = λ j n e d. (let (old, known, same) = was_known j n e in ground arith);
    distinct = check_nodes-IsDistinct c.ring c.nodes v.distinct;
  }

checked_ring-IsLinked :
    (c : Coordinator) (now : ℕ) (ring : HashRing) (node : NodeInfo)
    → IsLinked ring
    → IsLinked (checked_ring c now ring node)
unfolding checked_ring
checked_ring-IsLinked c now ring node v =
    elim (Bool-cases (leb c.dead_timeout (now - node.last_heartbeat))) [
      | inl late ↦ elim (Bool-cases (is_dead node.state)) [
        | inl gone ↦ rw (late, gone) v
        | inr living ↦ rw (late, living) (remove_node-IsLinked ring node.id v)
      ]
      | inr timely ↦ rw timely v
    ]

pub check_nodes-IsLinked :
    (c : Coordinator) (now : ℕ) (ring : HashRing) (nodes : Dict String NodeInfo)
    → IsLinked ring
    → IsLinked (check_nodes c now ring nodes).0
unfolding check_nodes
check_nodes-IsLinked c now ring [] v = v
check_nodes-IsLinked c now ring ((at, node) ∷ rest) v =
    check_nodes-IsLinked c now (checked_ring c now ring node) rest
      (checked_ring-IsLinked c now ring node v)
