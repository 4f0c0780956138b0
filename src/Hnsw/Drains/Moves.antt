-- ===== src/Hnsw/Drains/Moves.antt =====
-- What one call of `Insert` or of a section of a drain of internal/index/hnsw/hnsw.go does.
use mathlib.Core.List.{append-nil}
use magnitude.Common.{
  ℕ, ◌≡◌, refl, sym, ap, subst, ◌∙◌, true, false, String, Option, none, some, List, [], ◌∷◌, ◌++◌,
  length, get_elem?, ◌==◌, nat_keyed, nat_beq_iff, arith, Bool-cases, Option-cases, inl, inr,
}
use magnitude.Common.Keys.{has}
use magnitude.Common.Dict
use magnitude.Common.Result.{Result, ok, err}
use magnitude.Flat.{is_metric}
use magnitude.Hnsw.{
  ◌>>=◌, All, Error, Distances, Candidate, Heap, IsHeap, PendingInsert, HnswIndex, empty_index,
  new_hnsw_index, insert, node_index, friends_at,
}
use magnitude.Hnsw.Tracker.{Tracker}
use magnitude.Hnsw.Link.{take_batch}
use magnitude.Hnsw.Walk.Ends.{IsOrder}
use magnitude.Hnsw.Link.Friends.{id_at}
use magnitude.Hnsw.Vectors.{vector_of}
use magnitude.Hnsw.Puts.{put_all, put_all-same, put_all-append, HasDim, IsWellFormed}
use magnitude.Hnsw.Contents.{insert-IsWellFormed, take_batch-IsWellFormed, drain_batch-IsWellFormed}
use magnitude.Hnsw.Drains.{System, Call, insert_call, take_call, apply_call, drop_at, hold, call}
use magnitude.Hnsw.Drains.Orders.{
  accepted_by, is_late, joined, IsArranged, eq-IsArranged, hold-IsArranged, append-IsArranged,
  drop_at-IsArranged, get_elem?-All, drop_at-All, hold-All,
}

abbrev ok_of : {A : Type 0} → A → Result Error A
ok_of a = ok a

ok_inj : {A : Type 0} {a b : A} → ok_of a ≡ ok_of b → a ≡ b
ok_inj {A} {a} {b} e = ap (λ r. elim r [ ok x ↦ x | err _ ↦ a ]) e

module _ {F : Type 0} (dim m ef_construction ef_search : ℕ) (metric : String) where
  empty_index-IsWellFormed :
      IsWellFormed (empty_index {F = F} dim m ef_construction ef_search metric)
  unfolding friends_at id_at Dict.lookup has
  empty_index-IsWellFormed = record {
    valid = record {
      room = omega arith;
      offsets = omega arith;
      vectors = λ i offset at. absurd (ground arith);
      links = λ i layer fs at. absurd (ground (arith, at));
      entry = λ top at. absurd (ground arith);
    };
    indexed = record {
      counts = refl;
      known = λ id i at. absurd (ground (arith, at));
      live = λ i id at stays. absurd (ground (arith, at));
      gone = λ i at. absurd (ground (arith, at));
    };
    pending = tt;
  }

  empty_index-vector_of :
      (at : ℕ) → vector_of (empty_index {F = F} dim m ef_construction ef_search metric) at ≡ none
  unfolding vector_of node_index Dict.lookup
  empty_index-vector_of at = refl

  made_ok :
      (dim == 0) ≡ false
      → is_metric metric ≡ true
      → new_hnsw_index {F = F} dim m ef_construction ef_search metric
        ≡ ok (empty_index dim m ef_construction ef_search metric)
  made_ok positive named = unfold new_hnsw_index in rw (new_hnsw_index, positive, named) refl

  pub new_hnsw_index-empty :
      (h : HnswIndex F)
      → new_hnsw_index dim m ef_construction ef_search metric ≡ ok h
      → empty_index dim m ef_construction ef_search metric ≡ h
  unfolding new_hnsw_index
  new_hnsw_index-empty h made = elim (Bool-cases (dim == 0)) [
    | inl zero_dim ↦ absurd (ground (arith, made, zero_dim))
    | inr positive ↦ elim (Bool-cases (is_metric metric)) [
      | inl named ↦ ok_inj (sym (made_ok positive named) ∙ made)
      | inr unnamed ↦ absurd (ground (arith, made, positive, unnamed))
    ]
  ]

-- The index at the start, which no drain has taken a batch from.
abbrev pub started : {F : Type 0} → HnswIndex F → System F
started h = record { index = h; held = [] }

-- The first vector of each id, in the order of the list.
abbrev pub first_of : {F : Type 0} → List (PendingInsert F) → ℕ → Option (List F)
first_of order at = put_all (λ _. none) order at

-- The vectors that have been inserted into the graph, that drains hold, and that are pending.
abbrev pub everything : {F : Type 0} → List (PendingInsert F) → System F → List (PendingInsert F)
everything order s = order ++ (joined s.held ++ s.index.dirty)

-- The graph holds the vectors inserted into it, in this order; what drains hold has the right length.
pub record Holds {F : Type 0} (dim : ℕ) (order : List (PendingInsert F)) (s : System F)
    : Type 0 where
  pub well : IsWellFormed s.index
  pub dim_kept : s.index.dim ≡ dim
  pub fits : All (All (HasDim dim)) s.held
  pub graph : (at : ℕ) → vector_of s.index at ≡ first_of order at

pub started-Holds :
    {F : Type 0} (dim m ef_construction ef_search : ℕ) (metric : String)
    → Holds dim [] (started (empty_index {F = F} dim m ef_construction ef_search metric))
unfolding put_all
started-Holds dim m ef_construction ef_search metric = record {
  well = empty_index-IsWellFormed dim m ef_construction ef_search metric;
  dim_kept = refl;
  fits = tt;
  graph = empty_index-vector_of dim m ef_construction ef_search metric;
}

module _ {F : Type 0} (ds : Distances F) (less : IsOrder ds.less)
    (nearest furthest : Heap (Candidate F)) (is_near : IsHeap nearest) (is_far : IsHeap furthest)
    (dim : ℕ) where
  -- How a call ends.
  unfoldable pub Moves : List (PendingInsert F) → System F → Call F → Type 0
  Moves order s c =
      (next : System F) × (order' : List (PendingInsert F)) × (call ds nearest furthest s c
        ≡ some next)
      × Holds dim order' next
      × IsArranged (is_late c) (everything order' next) (everything order s ++ accepted_by dim c)

  stays-Moves :
      (order : List (PendingInsert F)) (s : System F) (c : Call F)
      → Holds dim order s
      → call ds nearest furthest s c ≡ some s
      → accepted_by dim c ≡ []
      → Moves order s c
  unfolding Moves
  stays-Moves order s c k at none_accepted = (
    s,
    order,
    at,
    k,
    eq-IsArranged (is_late c) (everything order s) (everything order s ++ accepted_by dim c)
        (rw none_accepted (sym (append-nil (everything order s)))),
  )

  take-Moves :
      (order : List (PendingInsert F)) (s : System F) → Holds dim order s → Moves order s take_call
  unfolding Moves call take_batch is_late accepted_by
  take-Moves order s k =
      let (w, same) =
        take_batch-IsWellFormed ds less nearest furthest is_near is_far (λ _. 0) s.index k.well in
      (
        record { index = (take_batch s.index).0; held = hold s.held s.index.dirty },
        order,
        refl,
        record {
          well = w;
          dim_kept = k.dim_kept;
          fits =
              hold-All (All (HasDim dim)) s.held s.index.dirty k.fits
                (subst (λ d. All (HasDim d) s.index.dirty) k.dim_kept k.well.pending);
          graph = λ at. same at ∙ k.graph at;
        },
        hold-IsArranged order s.index.dirty s.held,
      )

  insert-Moves :
      (order : List (PendingInsert F)) (s : System F) (id : ℕ) (vector : List F)
      → Holds dim order s
      → Moves order s (insert_call id vector)
  unfolding Moves call insert is_late accepted_by
  insert-Moves order s id vector k = elim (Bool-cases (length vector == dim)) [
    | inl fits ↦
        (let p : PendingInsert F = record { id = id; vector = vector } in
          let (next, at, w, same_dim, buffered, same) =
            insert-IsWellFormed ds less nearest furthest is_near is_far (λ _. 0) s.index id vector
              k.well ((nat_beq_iff (length vector) dim).0 fits ∙ sym k.dim_kept) in
          (
            record s { index = next },
            order,
            rw (call, at) refl,
            record {
              well = w;
              dim_kept = same_dim ∙ k.dim_kept;
              fits = k.fits;
              graph = λ i. same i ∙ k.graph i;
            },
            rw (accepted_by, fits, buffered)
                (append-IsArranged order s.index.dirty (p ∷ []) s.held),
          ))
    | inr misfits ↦
        (let refused : (length vector == s.index.dim) ≡ false =
            ap (λ d. length vector == d) k.dim_kept ∙ misfits in
          stays-Moves order s (insert_call id vector) k (rw (call, insert, refused) refl)
            (rw (accepted_by, misfits) refl))
  ]

  apply-Moves :
      (order : List (PendingInsert F)) (s : System F) (n : ℕ) (levels : ℕ → ℕ) (vt : Tracker)
      → Holds dim order s
      → Moves order s (apply_call n levels vt)
  unfolding Moves call is_late accepted_by
  apply-Moves order s n levels vt k = elim (Option-cases (get_elem? s.held n)) [
    | inl missing ↦ stays-Moves order s (apply_call n levels vt) k (rw (call, missing) refl) refl
    | inr (batch, taken) ↦
        (let fits = get_elem?-All (All (HasDim dim)) s.held n batch taken k.fits in
          let (next, used, all, at, w, same_dim, same_dirty, puts) =
            drain_batch-IsWellFormed ds less nearest furthest is_near is_far levels batch s.index vt
              k.well (rw k.dim_kept fits) in
          (
            record { index = next; held = drop_at s.held n },
            order ++ batch,
            rw (call, taken, at, ◌>>=◌) refl,
            record {
              well = w;
              dim_kept = same_dim ∙ k.dim_kept;
              fits = drop_at-All (All (HasDim dim)) s.held n k.fits;
              graph = λ i.
                  puts i
                  ∙ put_all-same (vector_of s.index) (first_of order) batch k.graph i
                  ∙ sym (put_all-append (λ _. none) order batch i);
            },
            rw same_dirty (drop_at-IsArranged order s.index.dirty batch s.held n taken),
          ))
  ]

  pub call-Moves :
      (order : List (PendingInsert F)) (s : System F) (c : Call F)
      → Holds dim order s
      → Moves order s c
  call-Moves order s (insert_call id vector) k = insert-Moves order s id vector k
  call-Moves order s take_call k = take-Moves order s k
  call-Moves order s (apply_call n levels vt) k = apply-Moves order s n levels vt k
