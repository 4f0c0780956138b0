-- ===== src/Hnsw/Search/Filtered.antt =====
-- `SearchFiltered` and `SearchFilteredBitmap` of internal/index/hnsw/hnsw.go on a well-formed index.
use magnitude.Common.{
  ℕ, ◌≤◌, ◌<◌, ◌≡◌, ◌⊎◌, refl, sym, subst, Bool, true, false, Option, some, List, [], ◌∷◌, length,
  length-take, get_elem?, nat_keyed, arith, Bool-cases, inl, inr,
}
use magnitude.Common.Keys.{has}
use magnitude.Common.Sort.{sort_by}
use magnitude.Common.Result.{ok, err}
use magnitude.Hnsw.{
  All, cancelled, Distances, Candidate, Heap, IsHeap, Node, Top, PendingInsert, HnswIndex,
}
use magnitude.Hnsw.Tracker.{Tracker}
use magnitude.Hnsw.Walk.{is_valid_id, greedy_closest_filtered}
use magnitude.Hnsw.Beam.{keep_valid, search_layer, beam_search}
use magnitude.Hnsw.Search.{
  SearchResult, scored, nearer, measured_pending, valid_pending, search_dirty_buffer_filtered,
  descend_asking, beam_width, search_graph, search_filtered,
}
use magnitude.Hnsw.Valid.{HasLayer, All-map}
use magnitude.Hnsw.Walk.Ends.{IsOrder}
use magnitude.Hnsw.Walk.Greedy.{greedy_closest_filtered_total}
use magnitude.Hnsw.Beam.Reached.{IsReached, beam_search_total}
use magnitude.Hnsw.Link.Neighbors.{sort_by-All}
use magnitude.Hnsw.Link.Friends.{id_at}
use magnitude.Hnsw.Link.Layers.{keep_valid-decides}
use magnitude.Hnsw.Puts.{IsWellFormed}
use magnitude.Hnsw.Search.Found.{take-All, search_graph_total}

id_at-found :
    (nodes : List Node) (i : ℕ) (node : Node)
    → get_elem? nodes i ≡ some node
    → id_at nodes i ≡ some node.id
unfolding id_at
id_at-found nodes i node at = rw (id_at, at) refl

module _ {F : Type 0} (ds : Distances F) (order : IsOrder ds.less)
    (nearest furthest : Heap (Candidate F)) (is_near : IsHeap nearest) (is_far : IsHeap furthest)
    (done : ℕ → Bool) (h : HnswIndex F) (w : IsWellFormed h) (query : List F) where
  -- The greedy descent ends at a node.
  abbrev EndsAt : (ℕ → ℕ → Option ℕ) → ℕ → Type 0
  EndsAt step i =
      (top : Top) × (tick : ℕ) × (h.top ≡ some top)
      × (descend_asking ds step done 0 top.max_level top.entry_point ≡ some (ok (i, tick)))

  module _ (step : ℕ → ℕ → Option ℕ) (keep : ℕ → Option Bool)
      (decides : (i : ℕ) → i < length h.nodes → (b : Bool) × (keep i ≡ some b)) where
    -- A candidate that the filter keeps, or where the descent ended.
    abbrev IsKept : Candidate F → Type 0
    IsKept c = (keep c.node_idx ≡ some true) ⊎ EndsAt step c.node_idx

    IsKept-beams :
        (ef : ℕ) (vt : Tracker) (top : Top) (tick ep : ℕ)
        → h.top ≡ some top
        → descend_asking ds step done 0 top.max_level top.entry_point ≡ some (ok (ep, tick))
        → HasLayer h 0 ep
        → (cs : List (Candidate F)) × (marked : Tracker) × (beam_search ds nearest furthest h query
              keep ef 0 done vt tick ep
            ≡ some (cs, marked))
          × All (λ c. HasLayer h 0 c.node_idx × IsKept c) cs
    IsKept-beams ef vt top tick ep at ends on =
        let (cs, marked, searched, reached, _) =
          beam_search_total ds nearest furthest is_near is_far h w.valid query keep decides ef 0
            done ep vt tick on in
        (
          cs,
          marked,
          searched,
          All-map
              (IsReached ds nearest furthest is_near is_far h w.valid query keep decides ef 0 done
                ep)
              (λ c. HasLayer h 0 c.node_idx × IsKept c)
              (λ c r. (
                r.on_layer,
                elim r.kept [
                  | inl same ↦ inr (subst (EndsAt step) (sym same) (top, tick, at, ends))
                  | inr kept ↦ inl kept
                ],
              ))
              cs reached,
        )

  valid_pending-All :
      (valid_ids : List ℕ) (ps : List (PendingInsert F))
      → All
          (λ r. has r.id valid_ids ≡ true)
          (measured_pending ds h query (valid_pending ds valid_ids ps))
  unfolding valid_pending
  valid_pending-All valid_ids [] = tt
  valid_pending-All valid_ids (p ∷ ps) = elim (Bool-cases (has p.id valid_ids)) [
    | inl valid ↦ rw valid (valid, valid_pending-All valid_ids ps)
    | inr other ↦ rw other (valid_pending-All valid_ids ps)
  ]

  -- A result of a filtered search: its id is in the list, or it is the node where the descent ended.
  abbrev pub IsSelected : List ℕ → SearchResult F → Type 0
  IsSelected valid_ids r =
      (has r.id valid_ids ≡ true)
      ⊎ ((i : ℕ) × (id_at h.nodes i ≡ some r.id)
          × EndsAt (greedy_closest_filtered ds h query valid_ids) i)

  module _ (valid_ids : List ℕ) where
    keeps_valid :
        (c : Candidate F) (node : Node)
        → IsKept
            (greedy_closest_filtered ds h query valid_ids)
            (keep_valid h (some valid_ids))
            (keep_valid-decides h w.valid (some valid_ids))
            c
        → get_elem? h.nodes c.node_idx ≡ some node
        → IsSelected valid_ids (scored ds h node.id c.dist)
    unfolding keep_valid is_valid_id
    keeps_valid c node (inl kept) at = inl (ground (arith, kept, at))
    keeps_valid c node (inr ends) at =
        inr (c.node_idx, id_at-found h.nodes c.node_idx node at, ends)

    pending-IsSelected :
        (buffer : List (PendingInsert F)) (k : ℕ)
        → All (IsSelected valid_ids) (search_dirty_buffer_filtered ds h buffer query k valid_ids)
          × (length (search_dirty_buffer_filtered ds h buffer query k valid_ids) ≤ k)
    unfolding search_dirty_buffer_filtered
    pending-IsSelected buffer k =
        let found = measured_pending ds h query (valid_pending ds valid_ids buffer) in
        let all =
          All-map (λ r. has r.id valid_ids ≡ true) (IsSelected valid_ids) (λ r is. inl is) found
            (valid_pending-All valid_ids buffer) in
        (
          take-All (IsSelected valid_ids) k (sort_by (nearer ds) found)
              (sort_by-All (nearer ds) (IsSelected valid_ids) found all),
          omega (arith, length-take k (sort_by (nearer ds) found)),
        )

  module _ (buffer : List (PendingInsert F)) (fits : length query ≡ h.dim) (k nprobe : ℕ)
      (some_k : 0 < k) (vt : Tracker) where
    search_filtered-graph :
        (valid_ids : List ℕ)
        → 0 < length valid_ids
        → search_filtered ds nearest furthest done h buffer query k nprobe valid_ids vt
          ≡ search_graph ds h
              (greedy_closest_filtered ds h query valid_ids)
              (λ tick ep.
                search_layer ds nearest furthest h query done tick ep
                  (beam_width ds h k nprobe)
                  0
                  vt
                  (some valid_ids))
              (λ _. false)
              done
              k
              (search_dirty_buffer_filtered ds h buffer query k valid_ids)
              vt
    unfolding search_filtered
    search_filtered-graph valid_ids some_ids = ground (arith, fits, some_k, some_ids)

    -- On a well-formed index, a filtered search with a query of the right length, a positive k and some
    -- id returns, with any tracker of the pool and any content of the buffer when it was read: it reports
    -- the end of the context, or has at most k results, each with an id of the list, or of the node where
    -- the greedy descent ended.
    pub search_filtered_selects :
        (valid_ids : List ℕ)
        → 0 < length valid_ids
        → (search_filtered ds nearest furthest done h buffer query k nprobe valid_ids vt
            ≡ some (err cancelled))
          ⊎ ((results : List (SearchResult F)) × (used : Tracker) × (search_filtered ds nearest
                  furthest done h buffer query k nprobe valid_ids vt
                ≡ some (ok (results, used)))
              × All (IsSelected valid_ids) results
              × (length results ≤ k))
    unfolding search_layer
    search_filtered_selects valid_ids some_ids =
        let pending = pending-IsSelected valid_ids buffer k in
        let step = greedy_closest_filtered ds h query valid_ids in
        let keep = keep_valid h (some valid_ids) in
        let decides = keep_valid-decides h w.valid (some valid_ids) in
        let ef = beam_width ds h k nprobe in
        rw (search_filtered-graph valid_ids some_ids) (
          search_graph_total ds h w.valid (IsKept step keep decides) (IsSelected valid_ids)
            (λ _. false) (λ c node kept _ at. keeps_valid valid_ids c node kept at) k step
            (greedy_closest_filtered_total ds order h w.valid query valid_ids) done
            (λ tick ep.
              search_layer ds nearest furthest h query done tick ep ef 0 vt (some valid_ids))
            (IsKept-beams step keep decides ef vt)
            (search_dirty_buffer_filtered ds h buffer query k valid_ids) vt some_k pending.0
            pending.1)
