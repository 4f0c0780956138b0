-- ===== src/Failure/Callbacks.antt =====
-- The callbacks of a check.
use magnitude.Common.{
  ℕ, ◌+◌, ◌≡◌, refl, Bool, not, ◌&&◌, String, Option, none, some, List, [], ◌∷◌, ◌++◌, ◌==◌,
  string_keyed, if◌then◌else◌, arith, Option-cases, inl, inr,
}
use text.Mathlib.TextEquality.{eq_iff}
use magnitude.Common.Dict
use magnitude.Common.Dict.{Dict}
use magnitude.Failure.{
  NodeState, unknown, alive, suspect, dead, same_state, TrackedNode, Config, Detector, Callback,
  node_suspect, node_dead, get_state, assessed, stamped, fired, check_nodes, check_all,
}

-- How often the callback for a death of a node, and for a suspicion, is among some calls.
unfoldable pub deaths : String → List Callback → ℕ
deaths id [] = 0
deaths id (node_dead j ∷ calls) = (if j == id then 1 else 0) + deaths id calls
deaths id (node_suspect j ∷ calls) = deaths id calls

unfoldable pub suspicions : String → List Callback → ℕ
suspicions id [] = 0
suspicions id (node_dead j ∷ calls) = suspicions id calls
suspicions id (node_suspect j ∷ calls) = (if j == id then 1 else 0) + suspicions id calls

-- 1 for a transition into a state whose callback is there, else 0.
abbrev pub turned : Bool → NodeState → NodeState → NodeState → ℕ
turned there into before after =
    if there && not (same_state before into) && same_state after into then 1 else 0

deaths-fired :
    (cfg : Config) (id j : String) (before after : NodeState) (calls : List Callback)
    → deaths id (fired cfg j before after ++ calls)
      ≡ (if j == id then turned cfg.on_dead dead before after else 0) + deaths id calls
unfolding deaths fired
deaths-fired cfg id j before unknown calls = ground arith
deaths-fired cfg id j before alive calls = ground arith
deaths-fired cfg id j before suspect calls = ground arith
deaths-fired cfg id j before dead calls = ground arith

suspicions-fired :
    (cfg : Config) (id j : String) (before after : NodeState) (calls : List Callback)
    → suspicions id (fired cfg j before after ++ calls)
      ≡ (if j == id then turned cfg.on_suspect suspect before after else 0) + suspicions id calls
unfolding suspicions fired
suspicions-fired cfg id j before unknown calls = ground arith
suspicions-fired cfg id j before alive calls = ground arith
suspicions-fired cfg id j before suspect calls = ground arith
suspicions-fired cfg id j before dead calls = ground arith

-- The state of a node that may not be there.
abbrev state_of : {F : Type 0} → Option (TrackedNode F) → NodeState
state_of none = unknown
state_of (some node) = node.state

module _ {F : Type 0} (phi_of : ℕ → ℕ → ℕ → F) (at_least_8 at_least_3 : F → Bool) where
  -- What a check makes of a node that may not be there.
  abbrev after_check : Config → ℕ → Option (TrackedNode F) → Option (TrackedNode F)
  after_check cfg now none = none
  after_check cfg now (some node) =
      some (stamped now node (assessed phi_of at_least_8 at_least_3 cfg now node))

  pub lookup-check_nodes :
      (cfg : Config) (now : ℕ) (id : String) (nodes : Dict String (TrackedNode F))
      → Dict.lookup id (check_nodes phi_of at_least_8 at_least_3 cfg now nodes).0
        ≡ after_check cfg now (Dict.lookup id nodes)
  unfolding check_nodes Dict.lookup
  lookup-check_nodes cfg now id [] = refl
  lookup-check_nodes cfg now id ((at, node) ∷ rest) =
      ground (arith, lookup-check_nodes cfg now id rest)

  stamped-state :
      (now : ℕ) (before after : TrackedNode F) → (stamped now before after).state ≡ after.state
  unfolding stamped
  stamped-state now before after = ground arith

  deaths-check_nodes :
      (cfg : Config) (now : ℕ) (id : String) (nodes : Dict String (TrackedNode F))
      → Dict.IsDistinct nodes
      → deaths id (check_nodes phi_of at_least_8 at_least_3 cfg now nodes).1
        ≡ turned cfg.on_dead dead
            (state_of (Dict.lookup id nodes))
            (state_of (after_check cfg now (Dict.lookup id nodes)))
  unfolding check_nodes Dict.lookup deaths
  deaths-check_nodes cfg now id [] d = ground arith
  deaths-check_nodes cfg now id ((at, node) ∷ rest) d =
      let after = assessed phi_of at_least_8 at_least_3 cfg now node in
      let calls = (check_nodes phi_of at_least_8 at_least_3 cfg now rest).1 in
      ground (
        arith,
        d.0,
        eq_iff at id,
        deaths-fired cfg id at node.state after.state calls,
        stamped-state now node after,
        deaths-check_nodes cfg now id rest d.1,
      )

  suspicions-check_nodes :
      (cfg : Config) (now : ℕ) (id : String) (nodes : Dict String (TrackedNode F))
      → Dict.IsDistinct nodes
      → suspicions id (check_nodes phi_of at_least_8 at_least_3 cfg now nodes).1
        ≡ turned cfg.on_suspect suspect
            (state_of (Dict.lookup id nodes))
            (state_of (after_check cfg now (Dict.lookup id nodes)))
  unfolding check_nodes Dict.lookup suspicions
  suspicions-check_nodes cfg now id [] d = ground arith
  suspicions-check_nodes cfg now id ((at, node) ∷ rest) d =
      let after = assessed phi_of at_least_8 at_least_3 cfg now node in
      let calls = (check_nodes phi_of at_least_8 at_least_3 cfg now rest).1 in
      ground (
        arith,
        d.0,
        eq_iff at id,
        suspicions-fired cfg id at node.state after.state calls,
        stamped-state now node after,
        suspicions-check_nodes cfg now id rest d.1,
      )

  -- If the nodes have different names, a check starts the callback for a node's death once if its
  -- state turns to dead and the callback is there, and not otherwise, and likewise for suspicion.
  pub callbacks_exact :
      (d : Detector F) (now : ℕ) (id : String)
      → Dict.IsDistinct d.nodes
      → (deaths id (check_all phi_of at_least_8 at_least_3 d now).1
          ≡ turned d.config.on_dead dead
              (get_state d id)
              (get_state (check_all phi_of at_least_8 at_least_3 d now).0 id))
        × (suspicions id (check_all phi_of at_least_8 at_least_3 d now).1
            ≡ turned d.config.on_suspect suspect
                (get_state d id)
                (get_state (check_all phi_of at_least_8 at_least_3 d now).0 id))
  unfolding check_all get_state
  callbacks_exact d now id distinct = (
    ground (
      arith,
      deaths-check_nodes d.config now id d.nodes distinct,
      lookup-check_nodes d.config now id d.nodes,
    ),
    ground (
      arith,
      suspicions-check_nodes d.config now id d.nodes distinct,
      lookup-check_nodes d.config now id d.nodes,
    ),
  )

  assessed-stamped :
      (cfg : Config) (now : ℕ) (node : TrackedNode F)
      → let after = assessed phi_of at_least_8 at_least_3 cfg now node in
        (assessed phi_of at_least_8 at_least_3 cfg now (stamped now node after)).state
        ≡ (stamped now node after).state
  unfolding assessed stamped
  assessed-stamped cfg now node = ground arith

  fired_same : (cfg : Config) (id : String) (s t : NodeState) → s ≡ t → fired cfg id t s ≡ []
  unfolding fired
  fired_same cfg id s t e = ground arith

  silent_again :
      (cfg : Config) (now : ℕ) (nodes : Dict String (TrackedNode F))
      → (check_nodes phi_of at_least_8 at_least_3 cfg now
          (check_nodes phi_of at_least_8 at_least_3 cfg now nodes).0).1
        ≡ []
  unfolding check_nodes
  silent_again cfg now [] = refl
  silent_again cfg now ((at, node) ∷ rest) =
      let after = stamped now node (assessed phi_of at_least_8 at_least_3 cfg now node) in
      rw
        (fired_same cfg at (assessed phi_of at_least_8 at_least_3 cfg now after).state after.state
          (assessed-stamped cfg now node))
        (silent_again cfg now rest)

  -- A second check at the same time starts no callback, and every node keeps its state.
  pub second_check_silent :
      (d : Detector F) (now : ℕ) (id : String)
      → let checked = (check_all phi_of at_least_8 at_least_3 d now).0 in
        ((check_all phi_of at_least_8 at_least_3 checked now).1 ≡ [])
        × (get_state (check_all phi_of at_least_8 at_least_3 checked now).0 id
            ≡ get_state checked id)
  unfolding check_all get_state
  second_check_silent d now id =
      let once = (check_nodes phi_of at_least_8 at_least_3 d.config now d.nodes).0 in
      let looked = lookup-check_nodes d.config now id d.nodes in
      let looked_again = lookup-check_nodes d.config now id once in
      (
        silent_again d.config now d.nodes,
        elim (Option-cases (Dict.lookup id d.nodes)) [
          | inl absent ↦ ground (arith, looked, looked_again)
          | inr (node, known) ↦
              let after =
                stamped now node (assessed phi_of at_least_8 at_least_3 d.config now node) in
              ground (
                arith,
                looked,
                looked_again,
                assessed-stamped d.config now node,
                stamped-state now after (assessed phi_of at_least_8 at_least_3 d.config now after),
              )
        ],
      )
