-- ===== src/Cluster/Coordinator/Routable.antt =====
-- Which nodes of the coordinator a key can be routed to.
use magnitude.Common.{
  ℕ, ◌-◌, ◌≤◌, ◌≡◌, Bool, true, false, not, String, Option, none, some, ◌==◌, string_keyed, arith,
  Bool-cases, Option-cases, inl, inr,
}
use text.Mathlib.TextEquality.{eq_iff}
use magnitude.Common.Dict
use magnitude.Common.Dict.{Dict}
use magnitude.Common.Result.{Result, ok, err}
use magnitude.Cluster.Ring.{is_member}
use magnitude.Cluster.Ring.Owners.{add_node-is_member}
use magnitude.Cluster.Ring.Removal.{remove_node-is_member}
use magnitude.Cluster.Coordinator.{
  alive, NodeInfo, Coordinator, Error, is_dead, join_node, heartbeat, leave_node, check_health,
}

-- A known node is on the ring unless it is dead.
abbrev pub routable : Option NodeInfo → Bool
routable none = false
routable (some node) = not (is_dead node.state)

-- At a time: the ring holds exactly the nodes that are not dead, and the dead have been silent for
-- their timeout.
pub record IsRoutable (now : ℕ) (c : Coordinator) : Type 0 where
  pub members : (id : String) → is_member c.ring id ≡ routable (Dict.lookup id c.nodes)
  pub named : (id : String) (node : NodeInfo) → Dict.lookup id c.nodes ≡ some node → node.id ≡ id
  pub silent :
      (id : String) (node : NodeInfo)
      → Dict.lookup id c.nodes ≡ some node
      → is_dead node.state ≡ true
      → c.dead_timeout ≤ now - node.last_heartbeat
  pub distinct : Dict.IsDistinct c.nodes

pub data Call : Type 0 where
  join_call : String → String → String → Call
  heartbeat_call : String → Call
  leave_call : String → Call
  check_call : Call

abbrev pub kept : Coordinator → Result Error Coordinator → Coordinator
kept c (ok c') = c'
kept c (err e) = c

module _ (sum32 : String → ℕ) (vnode_name : String → ℕ → String) where
  unfoldable pub call : Coordinator → ℕ → Call → Coordinator
  call c now (join_call id address api_address) =
      kept c (join_node sum32 vnode_name c now id address api_address)
  call c now (heartbeat_call id) = kept c (heartbeat sum32 vnode_name c now id)
  call c now (leave_call id) = kept c (leave_node c id)
  call c now check_call = check_health c now

-- No node that was declared dead joins again.
abbrev pub NoDeadRejoin : Coordinator → Call → Type 0
NoDeadRejoin c (join_call id _ _) =
    (node : NodeInfo) → Dict.lookup id c.nodes ≡ some node → is_dead node.state ≡ false
NoDeadRejoin c _ = Unit

-- Time passes.
pub later-IsRoutable : (t now : ℕ) (c : Coordinator) → t ≤ now → IsRoutable t c → IsRoutable now c
later-IsRoutable t now c later v = record {
  members = v.members;
  named = v.named;
  silent = λ j n e d. (let s = v.silent j n e d in omega arith);
  distinct = v.distinct;
}

module _ (sum32 : String → ℕ) (vnode_name : String → ℕ → String) (now : ℕ) (c : Coordinator)
    (v : IsRoutable now c) where
  pub heartbeat-IsRoutable :
      (id : String) → IsRoutable now (kept c (heartbeat sum32 vnode_name c now id))
  unfolding heartbeat
  heartbeat-IsRoutable id = elim (Option-cases (Dict.lookup id c.nodes)) [
    | inl unknown ↦ rw (unknown, kept) v
    | inr (node, known) ↦
        let beaten : NodeInfo = record node { last_heartbeat = now; state = alive } in
        rw (known, kept)
          (record {
            members = λ j. ground (
              arith,
              v.members j,
              v.members id,
              eq_iff id j,
              Dict.lookup-insert id j beaten c.nodes,
              add_node-is_member sum32 vnode_name c.ring id j,
            );
            named = λ j n e. ground (
              arith,
              v.named j n,
              v.named id node known,
              eq_iff id j,
              Dict.lookup-insert id j beaten c.nodes,
            );
            silent = λ j n e d.
                ground (arith, v.silent j n, eq_iff id j, Dict.lookup-insert id j beaten c.nodes);
            distinct = Dict.insert-IsDistinct id beaten c.nodes v.distinct;
          })
  ]

  pub join_node-IsRoutable :
      (id address api_address : String)
      → NoDeadRejoin c (join_call id address api_address)
      → IsRoutable now (kept c (join_node sum32 vnode_name c now id address api_address))
  unfolding join_node
  join_node-IsRoutable id address api_address living = elim (Bool-cases (id == "")) [
    | inl empty ↦ rw (empty, kept) v
    | inr named ↦ elim (Option-cases (Dict.lookup id c.nodes)) [
      | inl unknown ↦
          let joined : NodeInfo = record {
            id = id;
            address = address;
            api_address = api_address;
            state = alive;
            last_heartbeat = now;
            joined_at = now;
            collections = 0;
          } in
          rw (named, unknown, kept)
            (record {
              members = λ j. ground (
                arith,
                v.members j,
                v.members id,
                eq_iff id j,
                Dict.lookup-insert id j joined c.nodes,
                add_node-is_member sum32 vnode_name c.ring id j,
              );
              named = λ j n e.
                  ground (arith, v.named j n, eq_iff id j, Dict.lookup-insert id j joined c.nodes);
              silent = λ j n e d.
                  ground (arith, v.silent j n, eq_iff id j, Dict.lookup-insert id j joined c.nodes);
              distinct = Dict.insert-IsDistinct id joined c.nodes v.distinct;
            })
      | inr (node, known) ↦
          let joined : NodeInfo = record node {
            address = address;
            api_address = api_address;
            state = alive;
            last_heartbeat = now;
          } in
          rw (named, known, kept)
            (record {
              members = λ j. ground (
                arith,
                living node known,
                v.members j,
                v.members id,
                eq_iff id j,
                Dict.lookup-insert id j joined c.nodes,
              );
              named = λ j n e. ground (
                arith,
                v.named j n,
                v.named id node known,
                eq_iff id j,
                Dict.lookup-insert id j joined c.nodes,
              );
              silent = λ j n e d.
                  ground (arith, v.silent j n, eq_iff id j, Dict.lookup-insert id j joined c.nodes);
              distinct = Dict.insert-IsDistinct id joined c.nodes v.distinct;
            })
    ]
  ]

  pub leave_node-IsRoutable : (id : String) → IsRoutable now (kept c (leave_node c id))
  unfolding leave_node
  leave_node-IsRoutable id = elim (Option-cases (Dict.lookup id c.nodes)) [
    | inl unknown ↦ rw (unknown, kept) v
    | inr (node, known) ↦
        rw (known, kept)
          (record {
            members = λ j. ground (
              arith,
              v.members j,
              eq_iff id j,
              Dict.lookup-delete id j c.nodes,
              remove_node-is_member c.ring id j,
            );
            named =
                λ j n e. ground (arith, v.named j n, eq_iff id j, Dict.lookup-delete id j c.nodes);
            silent = λ j n e d.
                ground (arith, v.silent j n, eq_iff id j, Dict.lookup-delete id j c.nodes);
            distinct = Dict.delete-IsDistinct id c.nodes v.distinct;
          })
  ]
