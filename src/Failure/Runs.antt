-- ===== src/Failure/Runs.antt =====
-- Sequences of calls of the detector.
use magnitude.Common.{
  ℕ, sym, subst, ◌-◌, ◌<◌, ◌≡◌, refl, ◌∙◌, Bool, false, String, Option, none, some, List, [], ◌∷◌,
  string_keyed, length, arith, Option-cases, inl, inr,
}
use text.Mathlib.TextEquality.{eq_iff}
use magnitude.Common.Dict
use magnitude.Common.Dict.{Dict}
use magnitude.Failure.{
  positive, sum, alive, TrackedNode, Config, Detector, new, add_node, remove_node, get_state,
  made_intervals, record_heartbeat, assessed, stamped, check_nodes, check_all,
}
use magnitude.Failure.Callbacks.{lookup-check_nodes}
use magnitude.Failure.Heartbeats.{
  HasRoom, IsValid, insert-IsValid, heartbeat_stored, heartbeat-unknown, same_room, or_default-pos,
}

pub data Call : Type 0 where
  add_call : String → String → Call
  remove_call : String → Call
  heartbeat_call : String → Call
  check_call : Call

module _ {F : Type 0} (fresh : F) (phi_of : ℕ → ℕ → ℕ → F) (at_least_8 at_least_3 : F → Bool) where
  unfoldable pub call : Detector F → ℕ → Call → Option (Detector F)
  call d now (add_call id address) = some (add_node fresh d now id address)
  call d now (remove_call id) = some (remove_node d id)
  call d now (heartbeat_call id) = record_heartbeat d now id
  call d now check_call = some (check_all phi_of at_least_8 at_least_3 d now).0

  -- Calls, each with its time; `none` is a panic.
  unfoldable pub run : Detector F → List (ℕ × Call) → Option (Detector F)
  run d [] = some d
  run d ((now, x) ∷ xs) = elim (call d now x) [ none ↦ none | some d' ↦ run d' xs ]

  assessed-HasRoom :
      (cfg : Config) (now : ℕ) (node : TrackedNode F)
      → HasRoom node
      → HasRoom (stamped now node (assessed phi_of at_least_8 at_least_3 cfg now node))
  unfolding assessed stamped
  assessed-HasRoom cfg now node v =
      same_room (stamped now node (assessed phi_of at_least_8 at_least_3 cfg now node)) node
        (ground arith) (ground arith) v

  check_nodes-IsDistinct :
      (cfg : Config) (now : ℕ) (nodes : Dict String (TrackedNode F))
      → Dict.IsDistinct nodes
      → Dict.IsDistinct (check_nodes phi_of at_least_8 at_least_3 cfg now nodes).0
  unfolding check_nodes
  check_nodes-IsDistinct cfg now [] d = tt
  check_nodes-IsDistinct cfg now ((at, node) ∷ rest) d = (
    ground (arith, d.0, lookup-check_nodes phi_of at_least_8 at_least_3 cfg now at rest),
    check_nodes-IsDistinct cfg now rest d.1,
  )

  check_all-IsValid :
      (d : Detector F) (now : ℕ)
      → IsValid d
      → IsValid (check_all phi_of at_least_8 at_least_3 d now).0
  unfolding check_all
  check_all-IsValid d now v = record {
    room = λ id n e. elim (Option-cases (Dict.lookup id d.nodes)) [
      | inl absent ↦
          absurd (
            ground (arith, lookup-check_nodes phi_of at_least_8 at_least_3 d.config now id d.nodes))
      | inr (node, known) ↦
          (let at : stamped now node (assessed phi_of at_least_8 at_least_3 d.config now node) ≡ n =
              ground
                (arith, lookup-check_nodes phi_of at_least_8 at_least_3 d.config now id d.nodes) in
            rw (sym at) (assessed-HasRoom d.config now node (v.room id node known)))
    ];
    distinct = check_nodes-IsDistinct d.config now d.nodes v.distinct;
    suspects = v.suspects;
    dies = v.dies;
  }

  -- Every call on a valid detector returns one.
  call_total :
      (d : Detector F) (now : ℕ) (x : Call)
      → IsValid d
      → (d' : Detector F) × (call d now x ≡ some d') × IsValid d'
  unfolding call add_node remove_node made_intervals
  call_total d now (add_call id address) v =
      (add_node fresh d now id address, refl, insert-IsValid d id _ v (refl, omega arith))
  call_total d now (remove_call id) v = (
    remove_node d id,
    refl,
    record {
      room = λ j n e. v.room j n (ground (arith, eq_iff id j, Dict.lookup-delete id j d.nodes));
      distinct = Dict.delete-IsDistinct id d.nodes v.distinct;
      suspects = v.suspects;
      dies = v.dies;
    },
  )
  call_total d now (heartbeat_call id) v = elim (Option-cases (Dict.lookup id d.nodes)) [
    | inl absent ↦ (d, heartbeat-unknown d now id absent, v)
    | inr (node, known) ↦
        (let (beaten, e, room, _, _) = heartbeat_stored d now id node v known in
          (
            record d { nodes = Dict.insert id beaten d.nodes },
            e,
            insert-IsValid d id beaten v room,
          ))
  ]
  call_total d now check_call v =
      ((check_all phi_of at_least_8 at_least_3 d now).0, refl, check_all-IsValid d now v)

  run_total :
      (d : Detector F) (xs : List (ℕ × Call))
      → IsValid d
      → (d' : Detector F) × (run d xs ≡ some d') × IsValid d'
  unfolding run
  run_total d [] v = (d, refl, v)
  run_total d ((now, x) ∷ xs) v =
      let (next, e, valid) = call_total d now x v in
      let (last, f, done) = run_total next xs valid in (last, rw (e, run) f, done)

  new-IsValid : (cfg : Config) → IsValid {F = F} (new cfg)
  unfolding new Dict.lookup
  new-IsValid cfg = record {
    room = λ id n e. cc;
    distinct = tt;
    suspects = or_default-pos cfg.suspect_after 5000000000 (omega arith);
    dies = or_default-pos cfg.dead_after 15000000000 (omega arith);
  }

  -- No sequence of calls on a new detector panics.
  pub calls_return :
      (cfg : Config) (xs : List (ℕ × Call)) → (d : Detector F) × (run (new cfg) xs ≡ some d)
  calls_return cfg xs = let (d, e, v) = run_total (new cfg) xs (new-IsValid cfg) in (d, e)

  assessed_now :
      (cfg : Config) (now : ℕ) (node : TrackedNode F)
      → 0 < cfg.suspect_after
      → 0 < cfg.dead_after
      → node.last_seen ≡ now
      → ((total count : ℕ) → at_least_8 (phi_of total count 0) ≡ false)
      → ((total count : ℕ) → at_least_3 (phi_of total count 0) ≡ false)
      → (stamped now node (assessed phi_of at_least_8 at_least_3 cfg now node)).state ≡ alive
  unfolding assessed stamped
  assessed_now cfg now node suspects dies seen low_8 low_3 =
      let total = sum (positive node.intervals) in
      let count = length (positive node.intervals) in
      let none_since : now - node.last_seen ≡ 0 = omega arith in
      rw (none_since, assessed, stamped) (ground (arith, low_8 total count, low_3 total count))

  known_after :
      (d : Detector F) (id : String) (node : TrackedNode F)
      → Dict.lookup id (Dict.insert id node d.nodes) ≡ some node
  known_after d id node = ground (arith, eq_iff id id, Dict.lookup-insert id id node d.nodes)

  get_state-insert :
      (d : Detector F) (id : String) (node : TrackedNode F)
      → get_state (record d { nodes = Dict.insert id node d.nodes }) id ≡ node.state
  unfolding get_state
  get_state-insert d id node = ground (arith, known_after d id node)

  checked_alive :
      (d : Detector F) (now : ℕ) (id : String) (node : TrackedNode F)
      → 0 < d.config.suspect_after
      → 0 < d.config.dead_after
      → Dict.lookup id d.nodes ≡ some node
      → node.last_seen ≡ now
      → ((total count : ℕ) → at_least_8 (phi_of total count 0) ≡ false)
      → ((total count : ℕ) → at_least_3 (phi_of total count 0) ≡ false)
      → get_state (check_all phi_of at_least_8 at_least_3 d now).0 id ≡ alive
  unfolding get_state check_all
  checked_alive d now id node suspects dies known seen low_8 low_3 = ground (
    arith,
    lookup-check_nodes phi_of at_least_8 at_least_3 d.config now id d.nodes,
    assessed_now d.config now node suspects dies seen low_8 low_3,
  )

  -- After any calls on a new detector, a heartbeat of a known node returns. If a silence of 0 has a
  -- phi below both tests, then the node is alive after the heartbeat, and still after a check at
  -- the same time.
  pub heartbeat_revives :
      (cfg : Config) (xs : List (ℕ × Call)) (d : Detector F) (now : ℕ) (id : String)
      (node : TrackedNode F)
      → run (new cfg) xs ≡ some d
      → Dict.lookup id d.nodes ≡ some node
      → ((total count : ℕ) → at_least_8 (phi_of total count 0) ≡ false)
      → ((total count : ℕ) → at_least_3 (phi_of total count 0) ≡ false)
      → (d' : Detector F) × (record_heartbeat d now id ≡ some d')
        × (get_state d' id ≡ alive)
        × (get_state (check_all phi_of at_least_8 at_least_3 d' now).0 id ≡ alive)
  heartbeat_revives cfg xs d now id node ran known low_8 low_3 =
      let (d2, e, v2) = run_total (new cfg) xs (new-IsValid cfg) in
      let same : d2 ≡ d = ground (arith, e, ran) in
      let v = subst IsValid same v2 in
      let (beaten, returned, room, up, seen) = heartbeat_stored d now id node v known in
      (
        record d { nodes = Dict.insert id beaten d.nodes },
        returned,
        get_state-insert d id beaten ∙ up,
        checked_alive (record d { nodes = Dict.insert id beaten d.nodes }) now id beaten v.suspects
            v.dies (known_after d id beaten) seen low_8 low_3,
      )
