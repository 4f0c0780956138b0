-- ===== src/Hnsw/Walk/Ends.antt =====
-- The greedy walks of internal/index/hnsw/hnsw.go come to an end: every round moves closer to the
-- query, and there are finitely many nodes.
use magnitude.Common.{
  ℕ, zero, suc, ◌+◌, ◌≤◌, ◌<◌, ◌≡◌, refl, ap, ◌∙◌, ◌⊎◌, Bool, true, false, Option, none, some, List,
  [], ◌∷◌, length, nat_keyed, if◌then◌else◌, arith, Bool-cases, Option-cases, inl, inr,
}
use magnitude.Hnsw.{◌>>=◌, All, Distances, HnswIndex, friends_on}
use magnitude.Hnsw.Walk.{Standing, node_distance, try_friends, walk, greedy, closest_friend}
use magnitude.Hnsw.Valid.{layers_of-lt, HasLayer, IsValid, node_distance_total, friends_on_total}
use magnitude.Hnsw.Walk.Counts.{count_below, count_below-le, count_below-lt}

-- `<` on floats, with or without NaN.
pub record IsOrder {F : Type 0} (less : F → F → Bool) : Type 0 where
  pub irreflexive : (a : F) → less a a ≡ false
  pub transitive : (a b c : F) → less a b ≡ true → less b c ≡ true → less a c ≡ true

module _ {F : Type 0} (ds : Distances F) (order : IsOrder ds.less) (h : HnswIndex F) (v : IsValid h)
    (query : List F) where
  -- Where a walk on a layer may stand.
  record Stands (layer : ℕ) (s : Standing F) : Type 0 where
    on_layer : HasLayer h layer s.at
    measured : node_distance ds h query s.at ≡ some s.dist

  is_nearer : F → ℕ → Bool
  is_nearer d i = elim (node_distance ds h query i) [ none ↦ false | some e ↦ ds.less e d ]

  nearer_at :
      (d e : F) (i : ℕ)
      → node_distance ds h query i ≡ some e
      → is_nearer d i ≡ true
      → ds.less e d ≡ true
  unfolding is_nearer
  nearer_at d e i found near = ground (arith, found, near)

  -- How many nodes are nearer to the query.
  nearer_count : F → ℕ
  nearer_count d = count_below (is_nearer d) (length h.nodes)

  nearer_count-le : (d : F) → nearer_count d ≤ length h.nodes
  unfolding nearer_count
  nearer_count-le d = count_below-le (is_nearer d) (length h.nodes)

  nearer_count-lt :
      (layer : ℕ) (s : Standing F) (d : F)
      → Stands layer s
      → ds.less s.dist d ≡ true
      → nearer_count s.dist < nearer_count d
  unfolding nearer_count is_nearer
  nearer_count-lt layer s d stands below =
      count_below-lt (is_nearer s.dist) (is_nearer d)
        (λ i near. elim (Option-cases (node_distance ds h query i)) [
          | inl absent ↦ absurd (ground arith)
          | inr (e, found) ↦
              rw (is_nearer, found)
                (order.transitive e s.dist d (nearer_at s.dist e i found near) below)
        ])
        s.at (length h.nodes) (layers_of-lt h.nodes layer s.at stands.on_layer)
        (rw (is_nearer, stands.measured) (order.irreflexive s.dist))
        (rw (is_nearer, stands.measured) below)

  module _ (skip : ℕ → Option Bool)
      (decides : (i : ℕ) → i < length h.nodes → (b : Bool) × (skip i ≡ some b)) (layer : ℕ) where
    -- After the friends of a node the walk stands where it stood, or nearer.
    record Tried (s next : Standing F) : Type 0 where
      on_layer : HasLayer h layer next.at
      measured :
          node_distance ds h query s.at ≡ some s.dist
          → node_distance ds h query next.at ≡ some next.dist
      moved : (next ≡ s) ⊎ (ds.less next.dist s.dist ≡ true)

    Tried-refl : (s : Standing F) → HasLayer h layer s.at → Tried s s
    Tried-refl s on = record { on_layer = on; measured = λ m. m; moved = inl refl }

    Tried-step :
        (s next : Standing F) (f : ℕ) (d : F)
        → node_distance ds h query f ≡ some d
        → ds.less d s.dist ≡ true
        → Tried (record { at = f; dist = d; changed = true }) next
        → Tried s next
    Tried-step s next f d at below t = record {
      on_layer = t.on_layer;
      measured = λ _. t.measured at;
      moved = elim t.moved [
        | inl same ↦ inr (rw same below)
        | inr less ↦ inr (order.transitive next.dist d s.dist less below)
      ];
    }

    decides-cases : (i : ℕ) → i < length h.nodes → (skip i ≡ some true) ⊎ (skip i ≡ some false)
    decides-cases i known =
        let (b, at) = decides i known in
        elim (Bool-cases b) [ inl is ↦ inl (at ∙ ap some is) | inr isnt ↦ inr (at ∙ ap some isnt) ]

    try_friends-skipped :
        (f : ℕ) (fs : List ℕ) (s : Standing F)
        → skip f ≡ some true
        → try_friends ds h query skip (f ∷ fs) s ≡ try_friends ds h query skip fs s
    unfolding try_friends
    try_friends-skipped f fs s asked = rw (asked, ◌>>=◌) refl

    try_friends-tried :
        (f : ℕ) (fs : List ℕ) (s : Standing F) (d : F)
        → skip f ≡ some false
        → node_distance ds h query f ≡ some d
        → try_friends ds h query skip (f ∷ fs) s
          ≡ try_friends ds h query skip fs
              (if ds.less d s.dist then record { at = f; dist = d; changed = true } else s)
    unfolding try_friends
    try_friends-tried f fs s d asked found = rw (asked, found, ◌>>=◌) refl

    try_friends_total :
        (fs : List ℕ) (s : Standing F)
        → All (HasLayer h layer) fs
        → HasLayer h layer s.at
        → (next : Standing F) × (try_friends ds h query skip fs s ≡ some next) × Tried s next
    try_friends_total [] s ok on = (s, unfold try_friends in refl, Tried-refl s on)
    try_friends_total (f ∷ fs) s ok on =
        let known = layers_of-lt h.nodes layer f ok.0 in
        let (d, found) = node_distance_total h v ds query f known in
        elim (decides-cases f known) [
          | inl skipped ↦
              (let (next, at, t) = try_friends_total fs s ok.1 on in
                (next, try_friends-skipped f fs s skipped ∙ at, t))
          | inr tried ↦ elim (Bool-cases (ds.less d s.dist)) [
            | inl nearer ↦
                (let (next, at, t) =
                    try_friends_total fs (record { at = f; dist = d; changed = true }) ok.1 ok.0 in
                  (
                    next,
                    try_friends-tried f fs s d tried found ∙ rw nearer at,
                    Tried-step s next f d found nearer t,
                  ))
            | inr farther ↦
                (let (next, at, t) = try_friends_total fs s ok.1 on in
                  (next, try_friends-tried f fs s d tried found ∙ rw farther at, t))
          ]
        ]

    walk-again :
        (fuel : ℕ) (s next : Standing F) (fs : List ℕ)
        → friends_on h s.at layer ≡ some fs
        → try_friends ds h query skip fs (record s { changed = false }) ≡ some next
        → next.changed ≡ true
        → walk ds h query skip layer (suc fuel) s ≡ walk ds h query skip layer fuel next
    unfolding walk
    walk-again fuel s next fs at tried again = simp (at, tried, again, ◌>>=◌)

    walk-done :
        (fuel : ℕ) (s next : Standing F) (fs : List ℕ)
        → friends_on h s.at layer ≡ some fs
        → try_friends ds h query skip fs (record s { changed = false }) ≡ some next
        → next.changed ≡ false
        → walk ds h query skip layer (suc fuel) s ≡ some next.at
    unfolding walk
    walk-done fuel s next fs at tried done = rw (at, tried, done, ◌>>=◌) refl

    -- The walk ends on the layer.
    walk_total :
        (fuel : ℕ) (s : Standing F)
        → Stands layer s
        → nearer_count s.dist < fuel
        → (ep : ℕ) × (walk ds h query skip layer fuel s ≡ some ep) × HasLayer h layer ep
    walk_total zero s stands enough = elim enough [ ]
    walk_total (suc fuel) s stands enough =
        let (fs, at, few, ok) =
          friends_on_total h v s.at layer (layers_of-lt h.nodes layer s.at stands.on_layer) in
        let (next, tried, t) =
          try_friends_total fs (record s { changed = false }) ok stands.on_layer in
        let stands' : Stands layer next = record {
          on_layer = t.on_layer;
          measured = t.measured stands.measured;
        } in
        elim (Bool-cases next.changed) [
          | inl again ↦ elim t.moved [
            | inl same ↦ absurd (ground (arith, again, ap (λ x. x.changed) same))
            | inr nearer ↦
                (let (ep, ends, on) =
                    walk_total fuel next stands'
                      (omega (arith, nearer_count-lt layer next s.dist stands' nearer)) in
                  (ep, walk-again fuel s next fs at tried again ∙ ends, on))
          ]
          | inr done ↦ (next.at, walk-done fuel s next fs at tried done, t.on_layer)
        ]

    greedy-walk :
        (ep : ℕ) (d : F)
        → node_distance ds h query ep ≡ some d
        → greedy ds h query skip ep layer
          ≡ walk ds h query skip layer
              (length h.nodes + 1)
              (record { at = ep; dist = d; changed = true })
    unfolding greedy
    greedy-walk ep d found = rw (found, ◌>>=◌) refl

    pub greedy_total :
        (ep : ℕ)
        → HasLayer h layer ep
        → (next : ℕ) × (greedy ds h query skip ep layer ≡ some next) × HasLayer h layer next
    greedy_total ep on =
        let (d, found) = node_distance_total h v ds query ep (layers_of-lt h.nodes layer ep on) in
        let (next, ends, on') =
          walk_total (length h.nodes + 1) (record { at = ep; dist = d; changed = true })
            (record { on_layer = on; measured = found }) (omega (arith, nearer_count-le d)) in
        (next, greedy-walk ep d found ∙ ends, on')

    closest_friend-tried :
        (ep : ℕ) (fs : List ℕ) (best : Standing F)
        → friends_on h ep layer ≡ some fs
        → try_friends ds h query skip fs (record { at = ep; dist = ds.largest; changed = false })
          ≡ some best
        → closest_friend ds h query skip ep layer ≡ some best.at
    unfolding closest_friend
    closest_friend-tried ep fs best at tried = rw (at, tried, ◌>>=◌) refl

    pub closest_friend_total :
        (ep : ℕ)
        → HasLayer h layer ep
        → (next : ℕ) × (closest_friend ds h query skip ep layer ≡ some next) × HasLayer h layer next
    closest_friend_total ep on =
        let (fs, at, few, ok) = friends_on_total h v ep layer (layers_of-lt h.nodes layer ep on) in
        let (best, tried, t) =
          try_friends_total fs (record { at = ep; dist = ds.largest; changed = false }) ok on in
        (best.at, closest_friend-tried ep fs best at tried, t.on_layer)
