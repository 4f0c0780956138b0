-- ===== src/Flat/Refine.antt =====
-- The flat index as a client sees it: a map from ids to vectors of the right length, and
-- sequences of calls on it, failing ones included.
use magnitude.Common.{
  ℕ, ◌*◌, ◌<◌, ◌≡◌, refl, ap, ◌∙◌, fun_ext, Option, none, some, List, [], ◌∷◌, String, length,
  get_elem?, take, replicate, copy_at, slice, if◌then◌else◌, nat_keyed, ◌==◌, arith, length-take,
  length-replicate, Option-cases, inl, inr, copy_all, get_elem?-take, get_elem?_total, slice-take,
}
use magnitude.Common.Dict
use magnitude.Common.Result.{Result, ok, err}
use magnitude.Flat.{
  Error, FlatIndex, insert, delete, get_vector, new, all_vectors, default_initial_capacity,
}
use magnitude.Flat.Rows.{IsValid, get_vector-lookup_row, rows_le, live_fit}
use magnitude.Flat.Insert.{insert_outcome, insert-IsValid, get_vector-insert, dim-insert}
use magnitude.Flat.Delete.{delete_outcome, delete-IsValid, get_vector-delete, dim-delete}

-- What `NewFlatIndex` makes, at any initial capacity.
abbrev pub empty_index : {F : Type 0} → F → ℕ → ℕ → String → FlatIndex F
empty_index fresh cap dim metric = record {
  dim = dim;
  metric = metric;
  capacity = cap;
  count = 0;
  vectors = replicate (cap * dim) fresh;
  ids = replicate cap 0;
  id_to_row = [];
}

pub empty_index-IsValid :
    {F : Type 0} (fresh : F) (cap dim : ℕ) (metric : String)
    → IsValid (empty_index fresh cap dim metric)
unfolding Dict.lookup
empty_index-IsValid fresh cap dim metric = record {
  room = omega arith;
  ids_length = length-replicate {A = ℕ} cap 0;
  vectors_length = length-replicate (cap * dim) fresh;
  live = λ id r h. absurd (ground arith);
  known = λ id r lt at. absurd (omega arith);
}

new_inv :
    {F : Type 0} (fresh : F) (dim : ℕ) (metric : String) {idx : FlatIndex F}
    → new fresh dim metric ≡ ok idx
    → idx ≡ empty_index fresh default_initial_capacity dim metric
unfolding new
new_inv fresh dim metric h = ground arith

-- A new index is well formed, has the dimension asked for, and holds no id.
pub new_empty :
    {F : Type 0} (fresh : F) (dim : ℕ) (metric : String) {idx : FlatIndex F}
    → new fresh dim metric ≡ ok idx
    → IsValid idx × (idx.dim ≡ dim) × ((j : ℕ) → get_vector fresh idx j ≡ none)
unfolding get_vector Dict.lookup
new_empty fresh dim metric h =
    rw (new_inv fresh dim metric h)
      (empty_index-IsValid fresh default_initial_capacity dim metric, refl, λ j. refl)

-- A call of a client.
pub data Call (F : Type 0) : Type 0 where
  insert_call : ℕ → List F → Call F
  delete_call : ℕ → Call F

-- The index after a call that may have failed.
abbrev kept : {F : Type 0} → FlatIndex F → Result Error (FlatIndex F) → FlatIndex F
kept idx (ok idx') = idx'
kept idx (err e) = idx

module _ {F : Type 0} (fresh : F) where
  unfoldable pub call : FlatIndex F → Call F → FlatIndex F
  call idx (insert_call id vector) = kept idx (insert fresh idx id vector)
  call idx (delete_call id) = kept idx (delete idx id)

  unfoldable pub run : FlatIndex F → List (Call F) → FlatIndex F
  run idx [] = idx
  run idx (c ∷ cs) = run (call idx c) cs

-- The specification: a partial function from ids to vectors.
abbrev pub Store : Type 0 → Type 0
Store F = ℕ → Option (List F)

-- A vector of another length, an id that is there, and an id that is not, change nothing.
unfoldable pub spec_call : {F : Type 0} → ℕ → Store F → Call F → Store F
spec_call dim m (insert_call id vector) j =
    if length vector == dim
    then elim (m id) [ none ↦ if id == j then some vector else m j | some _ ↦ m j ]
    else m j
spec_call dim m (delete_call id) j = if id == j then none else m j

unfoldable pub spec_run : {F : Type 0} → ℕ → Store F → List (Call F) → Store F
spec_run dim m [] = m
spec_run dim m (c ∷ cs) = spec_run dim (spec_call dim m c) cs

module _ {F : Type 0} (fresh : F) where
  record Refines (idx idx' : FlatIndex F) (c : Call F) : Type 0 where
    valid : IsValid idx'
    same_dim : idx'.dim ≡ idx.dim
    view : (j : ℕ) → get_vector fresh idx' j ≡ spec_call idx.dim (get_vector fresh idx) c j

  insert-Refines :
      (idx : FlatIndex F) (id : ℕ) (vector : List F)
      → IsValid idx
      → Refines idx (kept idx (insert fresh idx id vector)) (insert_call id vector)
  unfolding spec_call
  insert-Refines idx id vector v = elim (insert_outcome fresh idx id vector v) [
    | inl (idx', done, count, fits, absent) ↦ rw done (record {
      valid = insert-IsValid fresh idx id vector v done;
      same_dim = dim-insert fresh idx id vector v done;
      view = λ j. ground (arith, get_vector-insert fresh idx id vector v done j);
    })
    | inr (inl (failed, wrong)) ↦
        rw failed (record { valid = v; same_dim = refl; view = λ j. ground arith })
    | inr (inr (failed, fits, present)) ↦
        rw failed (record { valid = v; same_dim = refl; view = λ j. ground arith })
  ]

  delete-Refines :
      (idx : FlatIndex F) (id : ℕ)
      → IsValid idx
      → Refines idx (kept idx (delete idx id)) (delete_call id)
  unfolding spec_call
  delete-Refines idx id v = elim (delete_outcome fresh idx id v) [
    | inl (idx', done, count, present) ↦ rw done (record {
      valid = delete-IsValid fresh idx id v done;
      same_dim = dim-delete fresh idx id v done;
      view = get_vector-delete fresh idx id v done;
    })
    | inr (failed, absent) ↦
        rw failed (record { valid = v; same_dim = refl; view = λ j. ground arith })
  ]

  call-Refines : (idx : FlatIndex F) (c : Call F) → IsValid idx → Refines idx (call fresh idx c) c
  unfolding call
  call-Refines idx (insert_call id vector) v = insert-Refines idx id vector v
  call-Refines idx (delete_call id) v = delete-Refines idx id v

  -- After any sequence of `Insert` and `Delete`, each failing or not, a well-formed index is well
  -- formed, and every id reads what the sequence of map updates gives for it.
  pub run_refines :
      (idx : FlatIndex F) (cs : List (Call F))
      → IsValid idx
      → IsValid (run fresh idx cs)
        × ((j : ℕ)
            → get_vector fresh (run fresh idx cs) j ≡ spec_run idx.dim (get_vector fresh idx) cs j)
  unfolding run spec_run
  run_refines idx [] v = (v, λ j. refl)
  run_refines idx (c ∷ cs) v =
      let r = call-Refines idx c v in
      let (valid, views) = run_refines (call fresh idx c) cs r.valid in
      (valid, λ j. views j ∙ simp r.same_dim (ap (λ m. spec_run idx.dim m cs j) (fun_ext r.view)))

  copied_ids :
      (idx : FlatIndex F)
      → IsValid idx
      → copy_at 0 (take idx.count idx.ids) (replicate idx.count 0) ≡ take idx.count idx.ids
  copied_ids idx v = copy_all (take idx.count idx.ids) (replicate idx.count 0) (
      omega (
        arith,
        v.room,
        v.ids_length,
        length-take idx.count idx.ids,
        length-replicate {A = ℕ} idx.count 0,
      ))

  copied_rows :
      (idx : FlatIndex F)
      → IsValid idx
      → copy_at 0 (take (idx.count * idx.dim) idx.vectors) (replicate (idx.count * idx.dim) fresh)
        ≡ take (idx.count * idx.dim) idx.vectors
  copied_rows idx v =
      copy_all (take (idx.count * idx.dim) idx.vectors) (replicate (idx.count * idx.dim) fresh) (
        omega (
          arith,
          live_fit fresh idx v,
          v.vectors_length,
          length-take (idx.count * idx.dim) idx.vectors,
          length-replicate (idx.count * idx.dim) fresh,
        ))

  -- The rows that `AllVectors` returns are the live ids with what `GetVector` returns for them.
  pub all_vectors-get_vector :
      (idx : FlatIndex F) (r : ℕ)
      → IsValid idx
      → r < idx.count
      → (id : ℕ) × (get_elem? (all_vectors fresh idx).0 r ≡ some id)
        × (get_vector fresh idx id ≡ some (slice (r * idx.dim) idx.dim (all_vectors fresh idx).1))
  unfolding all_vectors
  all_vectors-get_vector idx r v lt =
      let (id, at) = get_elem?_total idx.ids r (omega (arith, v.room, v.ids_length)) in
      (
        id,
        rw (copied_ids idx v, get_elem?-take r idx.count idx.ids lt) at,
        get_vector-lookup_row fresh idx v id
            ∙ rw (
              v.known id r lt at,
              copied_rows idx v,
              slice-take (r * idx.dim) idx.dim (idx.count * idx.dim) idx.vectors
                  (rows_le r idx.count idx.dim lt),
            ),
      )

  pub get_vector-all_vectors :
      (idx : FlatIndex F) (id : ℕ) {vec : List F}
      → IsValid idx
      → get_vector fresh idx id ≡ some vec
      → (r : ℕ) × (r < (all_vectors fresh idx).2)
        × (get_elem? (all_vectors fresh idx).0 r ≡ some id)
  unfolding get_vector all_vectors
  get_vector-all_vectors idx id v h = elim (Option-cases (Dict.lookup id idx.id_to_row)) [
    | inl absent ↦ absurd (ground arith)
    | inr (r, found) ↦
        let (lt, at) = v.live id r found in
        (r, lt, rw (copied_ids idx v, get_elem?-take r idx.count idx.ids lt) at)
  ]
