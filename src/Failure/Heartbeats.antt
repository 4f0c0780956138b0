-- ===== src/Failure/Heartbeats.antt =====
-- What a heartbeat stores, and the invariant of the detector.
use magnitude.Common.{
  ℕ, sym, ◌+◌, ◌-◌, ◌%◌, ◌<◌, ◌≡◌, refl, ap, ◌∙◌, not, ◌&&◌, String, none, some, List, [], ◌∷◌, ltb,
  ◌==◌, string_keyed, length, set, replicate, arith, Bool-cases, inl, inr, length-set,
}
use magnitude.Common.Dict
use magnitude.Common.Dict.{Dict}
use magnitude.Failure.{
  or_default, alive, same_state, TrackedNode, Detector, made_intervals, store_interval, recovered,
  record_heartbeat,
}

-- The next interval is stored inside the window of 100.
abbrev pub HasRoom : {F : Type 0} → TrackedNode F → Type 0
HasRoom node = (length (made_intervals node) ≡ 100) × (node.interval_idx < 100)

pub record IsValid {F : Type 0} (d : Detector F) : Type 0 where
  pub room :
      (id : String) (node : TrackedNode F) → Dict.lookup id d.nodes ≡ some node → HasRoom node
  pub distinct : Dict.IsDistinct d.nodes
  pub suspects : 0 < d.config.suspect_after
  pub dies : 0 < d.config.dead_after

module _ {F : Type 0} where
  pub made_kept :
      (node : TrackedNode F) → length node.intervals ≡ 100 → made_intervals node ≡ node.intervals
  unfolding made_intervals
  made_kept node l = kept node.intervals l
    where
      kept :
          (xs : List ℕ)
          → length xs ≡ 100
          → (elim xs [ [] ↦ replicate 100 0 | inv ∷ rest ↦ inv ∷ rest ]) ≡ xs
      kept [] e = absurd (omega arith)
      kept (x ∷ xs) e = refl

  pub length-made :
      (node : TrackedNode F) → length node.intervals ≡ 100 → length (made_intervals node) ≡ 100
  length-made node l = ground (arith, made_kept node l)

  pub store_interval-HasRoom :
      (node : TrackedNode F) (elapsed : ℕ)
      → HasRoom node
      → (stored : TrackedNode F) × (store_interval node elapsed ≡ some stored) × HasRoom stored
  unfolding store_interval
  store_interval-HasRoom node elapsed (l, r) =
      elim (Bool-cases (ltb 0 elapsed && ltb elapsed 300000000000)) [
        | inl kept ↦
            let filled = set (made_intervals node) node.interval_idx elapsed in
            let stored : TrackedNode F = record node {
              intervals = filled;
              interval_idx = (node.interval_idx + 1) % 100;
            } in
            (
              stored,
              ground arith,
              (
                length-made stored
                    (ground (arith, length-set (made_intervals node) node.interval_idx elapsed)),
                omega arith,
              ),
            )
        | inr ignored ↦
            let stored : TrackedNode F = record node { intervals = made_intervals node } in
            (stored, ground arith, (length-made stored l, r))
      ]

  pub recovered-HasRoom :
      (now : ℕ) (node : TrackedNode F)
      → HasRoom node
      → HasRoom (recovered now (record node { last_seen = now }))
  unfolding recovered made_intervals
  recovered-HasRoom now node v = elim (Bool-cases (not (same_state node.state alive))) [
    | inl down ↦ rw down v
    | inr up ↦ rw up v
  ]

  pub insert-IsValid :
      (d : Detector F) (id : String) (node : TrackedNode F)
      → IsValid d
      → HasRoom node
      → IsValid (record d { nodes = Dict.insert id node d.nodes })
  insert-IsValid d id node v room = record {
    room = λ j n e. elim (Bool-cases (id == j)) [
      | inl same ↦
          (let at : node ≡ n = ground (arith, Dict.lookup-insert id j node d.nodes) in
            rw (sym at) room)
      | inr other ↦ v.room j n (ground (arith, Dict.lookup-insert id j node d.nodes))
    ];
    distinct = Dict.insert-IsDistinct id node d.nodes v.distinct;
    suspects = v.suspects;
    dies = v.dies;
  }

  pub recovered-state : (now : ℕ) (node : TrackedNode F) → (recovered now node).state ≡ alive
  unfolding recovered
  recovered-state now node = ground arith

  pub recovered-last_seen :
      (now : ℕ) (node : TrackedNode F) → (recovered now node).last_seen ≡ node.last_seen
  unfolding recovered
  recovered-last_seen now node = ground arith

  -- On a valid detector, a heartbeat of a known node returns, and stores it alive and seen now.
  pub heartbeat_stored :
      (d : Detector F) (now : ℕ) (id : String) (node : TrackedNode F)
      → IsValid d
      → Dict.lookup id d.nodes ≡ some node
      → (beaten : TrackedNode F) × (record_heartbeat d now id
          ≡ some (record d { nodes = Dict.insert id beaten d.nodes }))
        × HasRoom beaten
        × (beaten.state ≡ alive)
        × (beaten.last_seen ≡ now)
  unfolding record_heartbeat
  heartbeat_stored d now id node v known =
      let (stored, e, room) =
        store_interval-HasRoom node (now - node.last_seen) (v.room id node known) in
      (
        recovered now (record stored { last_seen = now }),
        ground arith,
        recovered-HasRoom now stored room,
        recovered-state now (record stored { last_seen = now }),
        recovered-last_seen now (record stored { last_seen = now }),
      )

pub heartbeat-unknown :
    {F : Type 0} (d : Detector F) (now : ℕ) (id : String)
    → Dict.lookup id d.nodes ≡ none
    → record_heartbeat d now id ≡ some d
unfolding record_heartbeat
heartbeat-unknown d now id absent = rw (absent, record_heartbeat) refl

pub same_room :
    {F : Type 0} (a b : TrackedNode F)
    → a.intervals ≡ b.intervals
    → a.interval_idx ≡ b.interval_idx
    → HasRoom b
    → HasRoom a
unfolding made_intervals
same_room a b e i (l, r) = (
  ap (λ xs. length (elim xs as (λ x. List ℕ) [ [] ↦ replicate 100 0 | inv ∷ rest ↦ inv ∷ rest ])) e
      ∙ l,
  omega arith,
)

pub or_default-pos : (n d : ℕ) → 0 < d → 0 < or_default n d
unfolding or_default
or_default-pos n d h = ground arith
