-- ===== src/Hnsw/Contents.antt =====
-- What `Insert` and `drainDirtyBuffer` of internal/index/hnsw/hnsw.go do to the vectors by id.
use magnitude.Common.{
  ℕ, ◌≡◌, refl, sym, ◌∙◌, some, List, [], ◌∷◌, ◌++◌, length, nat_keyed, arith, inl, inr,
}
use magnitude.Common.Dict
use magnitude.Common.Dict.{Dict}
use magnitude.Common.Result.{ok, err}
use magnitude.Hnsw.{
  ◌>>=◌, All, duplicate_id, Distances, Candidate, Heap, IsHeap, PendingInsert, HnswIndex,
  friends_at, node_vector, node_index, insert,
}
use magnitude.Hnsw.Tracker.{Tracker}
use magnitude.Hnsw.Link.{insert_locked, take_batch, drain_batch}
use magnitude.Hnsw.Valid.{IsValid, All-append, node_vector_total}
use magnitude.Hnsw.Walk.Ends.{IsOrder}
use magnitude.Hnsw.Link.Stored.{insert_locked_outcome}
use magnitude.Hnsw.Vectors.{
  IsIndexed, vector_of, vector_of-none, vector_of-some, node_index-lt, stored_vectors,
  stored-IsIndexed,
}
use magnitude.Hnsw.Puts.{
  put_new, put_all, HasDim, IsWellFormed, put_new-absent, put_all-same, put_all-cons, put_all-skip,
}

module _ {F : Type 0} (ds : Distances F) (order : IsOrder ds.less)
    (nearest furthest : Heap (Candidate F)) (is_near : IsHeap nearest) (is_far : IsHeap furthest)
    (levels : ℕ → ℕ) where
  drain_batch-refused :
      (h : HnswIndex F) (p : PendingInsert F) (ps : List (PendingInsert F)) (vt : Tracker)
      (drained : Dict ℕ ℕ)
      → insert_locked ds nearest furthest h p.id p.vector (levels (length h.nodes)) vt
        ≡ some (err duplicate_id)
      → drain_batch ds nearest furthest levels h (p ∷ ps) vt drained
        ≡ drain_batch ds nearest furthest levels h ps vt drained
  unfolding drain_batch
  drain_batch-refused h p ps vt drained at = rw (drain_batch, at, ◌>>=◌) refl

  drain_batch-accepted :
      (h next : HnswIndex F) (p : PendingInsert F) (ps : List (PendingInsert F)) (vt used : Tracker)
      (drained : Dict ℕ ℕ)
      → insert_locked ds nearest furthest h p.id p.vector (levels (length h.nodes)) vt
        ≡ some (ok (next, used))
      → drain_batch ds nearest furthest levels h (p ∷ ps) vt drained
        ≡ drain_batch ds nearest furthest levels next ps used
            (Dict.insert p.id (length h.nodes) drained)
  unfolding drain_batch
  drain_batch-accepted h next p ps vt used drained at = rw (drain_batch, at, ◌>>=◌) refl

  -- What the loop over the batch leaves.
  record Drained (h : HnswIndex F) (ps : List (PendingInsert F)) (next : HnswIndex F) : Type 0 where
    valid : IsValid next
    indexed : IsIndexed next
    vectors : (at : ℕ) → vector_of next at ≡ put_all (vector_of h) ps at
    dim : next.dim ≡ h.dim
    dirty : next.dirty ≡ h.dirty

  vector_of-live :
      (h : HnswIndex F) (v : IsValid h) (x : IsIndexed h) (id i : ℕ)
      → node_index h id ≡ some i
      → (vec : List F) × (vector_of h id ≡ some vec)
  vector_of-live h v x id i live =
      let (vec, found, _) = node_vector_total h v i (node_index-lt h x id i live) in
      (vec, vector_of-some h id i live ∙ found)

  drain_batch_total :
      (ps : List (PendingInsert F)) (h : HnswIndex F) (vt : Tracker) (drained : Dict ℕ ℕ)
      → IsValid h
      → IsIndexed h
      → All (HasDim h.dim) ps
      → (next : HnswIndex F) × (used : Tracker) × (all : Dict ℕ ℕ) × (drain_batch ds nearest
            furthest levels h ps vt drained
          ≡ some (next, used, all))
        × Drained h ps next
  drain_batch_total [] h vt drained v x fits = (
    h,
    vt,
    drained,
    unfold drain_batch in refl,
    record {
      valid = v;
      indexed = x;
      vectors = λ at. unfold put_all in refl;
      dim = refl;
      dirty = refl;
    },
  )
  drain_batch_total (p ∷ ps) h vt drained v x fits =
      elim (insert_locked_outcome ds order nearest furthest is_near is_far h p.id p.vector
        (levels (length h.nodes)) vt v fits.0) [
          | inl (i, live, refused) ↦
              (let (vec, found) = vector_of-live h v x p.id i live in
                let (next, used, all, at, d) = drain_batch_total ps h vt drained v x fits.1 in
                (
                  next,
                  used,
                  all,
                  drain_batch-refused h p ps vt drained refused ∙ at,
                  record {
                    valid = d.valid;
                    indexed = d.indexed;
                    vectors = λ id. d.vectors id ∙ put_all-skip (vector_of h) p ps vec found id;
                    dim = d.dim;
                    dirty = d.dirty;
                  },
                ))
          | inr (fresh, stored, used, accepted, v', s) ↦
              (let x' = stored-IsIndexed h v x p.id p.vector fits.0 fresh stored s in
                let (next, used', all, at, d) =
                  drain_batch_total ps stored used (Dict.insert p.id (length h.nodes) drained) v' x'
                    (rw s.dim fits.1) in
                (
                  next,
                  used',
                  all,
                  drain_batch-accepted h stored p ps vt used drained accepted ∙ at,
                  record {
                    valid = d.valid;
                    indexed = d.indexed;
                    vectors = λ id.
                        d.vectors id
                        ∙ put_all-same (vector_of stored) (put_new (vector_of h) p) ps
                            (λ at'.
                              stored_vectors h v x p.id p.vector fits.0 fresh stored s at'
                              ∙ sym (
                                  put_new-absent (vector_of h) p (vector_of-none h p.id fresh) at'))
                            id
                        ∙ sym (put_all-cons (vector_of h) p ps id);
                    dim = d.dim ∙ s.dim;
                    dirty = d.dirty ∙ s.dirty;
                  },
                ))
        ]

  -- The index with another buffer.
  abbrev with_dirty : HnswIndex F → List (PendingInsert F) → HnswIndex F
  with_dirty h dirty = record h { dirty = dirty }

  with_dirty-vector_of :
      (h : HnswIndex F) (dirty : List (PendingInsert F)) (at : ℕ)
      → vector_of (with_dirty h dirty) at ≡ vector_of h at
  unfolding vector_of node_index node_vector
  with_dirty-vector_of h dirty at = refl

  with_dirty-IsValid :
      (h : HnswIndex F) (dirty : List (PendingInsert F)) → IsValid h → IsValid (with_dirty h dirty)
  unfolding friends_at
  with_dirty-IsValid h dirty v = record {
    room = v.room;
    offsets = v.offsets;
    vectors = v.vectors;
    links = v.links;
    entry = v.entry;
  }

  with_dirty-IsIndexed :
      (h : HnswIndex F) (dirty : List (PendingInsert F))
      → IsIndexed h
      → IsIndexed (with_dirty h dirty)
  with_dirty-IsIndexed h dirty x = record {
    counts = x.counts;
    known = x.known;
    live = x.live;
    gone = x.gone;
  }

  -- The batch is taken from the buffer, and the graph stays.
  pub take_batch-IsWellFormed :
      (h : HnswIndex F)
      → IsWellFormed h
      → IsWellFormed (take_batch h).0 × ((at : ℕ) → vector_of (take_batch h).0 at ≡ vector_of h at)
  unfolding take_batch
  take_batch-IsWellFormed h w = (
    record {
      valid = with_dirty-IsValid h [] w.valid;
      indexed = with_dirty-IsIndexed h [] w.indexed;
      pending = tt;
    },
    with_dirty-vector_of h [],
  )

  -- The insertion of a batch returns, and the graph holds by id the vectors that it had, and else the
  -- first one of the batch.
  pub drain_batch-IsWellFormed :
      (batch : List (PendingInsert F)) (h : HnswIndex F) (vt : Tracker)
      → IsWellFormed h
      → All (HasDim h.dim) batch
      → (next : HnswIndex F) × (used : Tracker) × (all : Dict ℕ ℕ) × (drain_batch ds nearest
            furthest levels h batch vt []
          ≡ some (next, used, all))
        × IsWellFormed next
        × (next.dim ≡ h.dim)
        × (next.dirty ≡ h.dirty)
        × ((at : ℕ) → vector_of next at ≡ put_all (vector_of h) batch at)
  drain_batch-IsWellFormed batch h vt w fits =
      let (next, used, all, at, d) = drain_batch_total batch h vt [] w.valid w.indexed fits in
      (
        next,
        used,
        all,
        at,
        record { valid = d.valid; indexed = d.indexed; pending = rw (d.dim, d.dirty) w.pending },
        d.dim,
        d.dirty,
        d.vectors,
      )

  -- `Insert` buffers a vector that fits, and the graph stays.
  pub insert-IsWellFormed :
      (h : HnswIndex F) (id : ℕ) (vector : List F)
      → IsWellFormed h
      → length vector ≡ h.dim
      → (next : HnswIndex F) × (insert h id vector ≡ ok next)
        × IsWellFormed next
        × (next.dim ≡ h.dim)
        × (next.dirty ≡ h.dirty ++ (record { id = id; vector = vector }) ∷ [])
        × ((at : ℕ) → vector_of next at ≡ vector_of h at)
  unfolding insert
  insert-IsWellFormed h id vector w fits =
      let p : PendingInsert F = record { id = id; vector = vector } in
      let dirty = h.dirty ++ p ∷ [] in
      (
        with_dirty h dirty,
        ground (arith, fits),
        record {
          valid = with_dirty-IsValid h dirty w.valid;
          indexed = with_dirty-IsIndexed h dirty w.indexed;
          pending = All-append (HasDim h.dim) h.dirty (p ∷ []) w.pending (fits, tt);
        },
        refl,
        refl,
        with_dirty-vector_of h dirty,
      )
