-- ===== src/Hnsw/Link/Neighbors.antt =====
-- The choice of neighbors in internal/index/hnsw/hnsw.go: it ends, keeps the bound, and takes its
-- neighbors from the candidates.
use magnitude.Common.{
  ℕ, suc, ◌≤◌, ◌≡◌, refl, ap, ◌∙◌, Bool, true, false, some, List, [], ◌∷◌, ◌++◌, length,
  length-append, leb, if◌then◌else◌, arith, Bool-cases, inl, inr,
}
use magnitude.Common.Sort.{insert_by, sort_by}
use magnitude.Hnsw.{◌>>=◌, All, Distances, Candidate, HnswIndex, node_vector}
use magnitude.Hnsw.Link.{
  indices, closer, is_covered, select_loop, select_neighbors, as_candidates, prune_connections,
}
use magnitude.Hnsw.Valid.{All-append}

module _ {A : Type 0} (before : A → A → Bool) (P : A → Type 0) where
  pub insert_by-All : (a : A) (xs : List A) → P a → All P xs → All P (insert_by before a xs)
  unfolding insert_by
  insert_by-All a [] ok all = (ok, tt)
  insert_by-All a (x ∷ xs) ok all = elim (Bool-cases (before x a)) [
    | inl is ↦ rw is (all.0, insert_by-All a xs ok all.1)
    | inr isnt ↦ rw isnt (ok, all)
  ]

  pub sort_by-All : (xs : List A) → All P xs → All P (sort_by before xs)
  unfolding sort_by
  sort_by-All [] all = tt
  sort_by-All (a ∷ xs) all = insert_by-All a (sort_by before xs) all.0 (sort_by-All xs all.1)

-- A candidate whose node passes.
abbrev pub IsAt : {F : Type 0} → (ℕ → Type 0) → Candidate F → Type 0
IsAt P c = P c.node_idx

module _ {F : Type 0} (ds : Distances F) (h : HnswIndex F) (P : ℕ → Type 0)
    (reads : (i : ℕ) → P i → (vec : List F) × (node_vector h i ≡ some vec)) where
  is_covered-next :
      (cv : List F) (d : F) (r : ℕ) (rs : List ℕ) (rv : List F)
      → node_vector h r ≡ some rv
      → ds.less (ds.distance_func h.metric cv rv) d ≡ false
      → is_covered ds h cv d (r ∷ rs) ≡ is_covered ds h cv d rs
  unfolding is_covered
  is_covered-next cv d r rs rv found far = rw (is_covered, found, ◌>>=◌, far) refl

  is_covered_total :
      (cv : List F) (d : F) (rs : List ℕ)
      → All P rs
      → (b : Bool) × (is_covered ds h cv d rs ≡ some b)
  is_covered_total cv d [] ok = (false, unfold is_covered in refl)
  is_covered_total cv d (r ∷ rs) ok =
      let (rv, found) = reads r ok.0 in
      elim (Bool-cases (ds.less (ds.distance_func h.metric cv rv) d)) [
        | inl near ↦ (true, unfold is_covered in rw (is_covered, found, ◌>>=◌, near) refl)
        | inr far ↦
            (let (b, at) = is_covered_total cv d rs ok.1 in
              (b, is_covered-next cv d r rs rv found far ∙ at))
      ]

  select_loop-full :
      (m : ℕ) (c : Candidate F) (cs : List (Candidate F)) (result : List ℕ)
      → leb m (length result) ≡ true
      → select_loop ds h m (c ∷ cs) result ≡ some result
  unfolding select_loop
  select_loop-full m c cs result full = rw (select_loop, full) refl

  select_loop-next :
      (m : ℕ) (c : Candidate F) (cs : List (Candidate F)) (result : List ℕ) (cv : List F)
      (covered : Bool)
      → leb m (length result) ≡ false
      → node_vector h c.node_idx ≡ some cv
      → is_covered ds h cv c.dist result ≡ some covered
      → select_loop ds h m (c ∷ cs) result
        ≡ select_loop ds h m cs (if covered then result else result ++ c.node_idx ∷ [])
  unfolding select_loop
  select_loop-next m c cs result cv covered room found asked =
      rw (select_loop, room, found, ◌>>=◌, asked) refl

  -- The neighbors that the code selects.
  pub record Selected (m : ℕ) (out : List ℕ) : Type 0 where
    pub few : length out ≤ m
    pub all : All P out

  select_loop_total :
      (m : ℕ) (cs : List (Candidate F)) (result : List ℕ)
      → All (IsAt P) cs
      → Selected m result
      → (out : List ℕ) × (select_loop ds h m cs result ≡ some out) × Selected m out
  select_loop_total m [] result ok s = (result, unfold select_loop in refl, s)
  select_loop_total m (c ∷ cs) result ok s =
      let (cv, found) = reads c.node_idx ok.0 in
      let (covered, asked) = is_covered_total cv c.dist result s.all in
      elim (Bool-cases (leb m (length result))) [
        | inl full ↦ (result, select_loop-full m c cs result full, s)
        | inr room ↦
            (let next : Selected m (if covered then result else result ++ c.node_idx ∷ []) =
                elim (Bool-cases covered) [
                  | inl is ↦ rw is s
                  | inr isnt ↦ rw isnt (record {
                    few = ground (arith, length-append result (c.node_idx ∷ []), room);
                    all = All-append P result (c.node_idx ∷ []) s.all (ok.0, tt);
                  })
                ] in
              let (out, at, s') =
                select_loop_total m cs (if covered then result else result ++ c.node_idx ∷ []) ok.1
                  next in
              (out, select_loop-next m c cs result cv covered room found asked ∙ at, s'))
      ]

  length-indices : (cs : List (Candidate F)) → length (indices ds cs) ≡ length cs
  length-indices [] = refl
  length-indices (c ∷ cs) = ap suc (length-indices cs)

  All-indices : (cs : List (Candidate F)) → All (IsAt P) cs → All P (indices ds cs)
  All-indices [] ok = tt
  All-indices (c ∷ cs) ok = (ok.0, All-indices cs ok.1)

  pub select_neighbors_total :
      (candidates : List (Candidate F)) (m : ℕ)
      → All (IsAt P) candidates
      → (out : List ℕ) × (select_neighbors ds h candidates m ≡ some out) × Selected m out
  unfolding select_neighbors
  select_neighbors_total candidates m ok = elim (Bool-cases (leb (length candidates) m)) [
    | inl few ↦ (
      indices ds candidates,
      rw (select_neighbors, few) refl,
      record {
        few = ground (arith, length-indices candidates, few);
        all = All-indices candidates ok;
      },
    )
    | inr many ↦
        (let (out, at, s) =
            select_loop_total m candidates [] ok (record { few = omega arith; all = tt }) in
          (out, rw (select_neighbors, many) at, s))
  ]

  as_candidates-step :
      (vec : List F) (f : ℕ) (fs : List ℕ) (fv : List F) (rest : List (Candidate F))
      → node_vector h f ≡ some fv
      → as_candidates ds h vec fs ≡ some rest
      → as_candidates ds h vec (f ∷ fs)
        ≡ some ((record { node_idx = f; dist = ds.distance_func h.metric vec fv }) ∷ rest)
  unfolding as_candidates
  as_candidates-step vec f fs fv rest found at = rw (as_candidates, found, ◌>>=◌, at) refl

  as_candidates_total :
      (vec : List F) (fs : List ℕ)
      → All P fs
      → (cs : List (Candidate F)) × (as_candidates ds h vec fs ≡ some cs) × All (IsAt P) cs
  as_candidates_total vec [] ok = ([], unfold as_candidates in refl, tt)
  as_candidates_total vec (f ∷ fs) ok =
      let (fv, found) = reads f ok.0 in
      let (cs, at, all) = as_candidates_total vec fs ok.1 in
      (
        (record { node_idx = f; dist = ds.distance_func h.metric vec fv }) ∷ cs,
        as_candidates-step vec f fs fv cs found at,
        (ok.0, all),
      )

  pub prune_connections_total :
      (vec : List F) (friends : List ℕ) (max_conn : ℕ)
      → All P friends
      → (out : List ℕ) × (prune_connections ds h vec friends max_conn ≡ some out)
        × Selected max_conn out
  unfolding prune_connections
  prune_connections_total vec friends max_conn ok =
      let (cs, read, all) = as_candidates_total vec friends ok in
      let (out, at, s) =
        select_neighbors_total (sort_by (closer ds) cs) max_conn
          (sort_by-All (closer ds) (IsAt P) cs all) in
      elim (Bool-cases (leb (length friends) max_conn)) [
        | inl few ↦ (
          friends,
          rw (prune_connections, few) refl,
          record { few = ground (arith, few); all = ok },
        )
        | inr many ↦ (out, rw (prune_connections, many, read, ◌>>=◌) at, s)
      ]
