-- ===== src/Hnsw/Search.antt =====
-- The searches of internal/index/hnsw/hnsw.go: the graph from the top layer down, and the buffer of
-- pending inserts by brute force.
pub mod Found
pub mod Finds
pub mod Filtered
pub mod Faults
use magnitude.Common.{
  ℕ, zero, suc, ◌+◌, Bool, true, false, not, ◌||◌, Option, none, some, List, [], ◌∷◌, ◌++◌, length,
  get_elem?, take, ltb, leb, ◌==◌, nat_keyed, if◌then◌else◌,
}
use magnitude.Common.Keys.{has}
use magnitude.Common.Sort.{sort_by}
use magnitude.Common.Result.{Result, ok, err}
use magnitude.Hnsw.{
  ◌>>=◌, Error, dimension_mismatch, cancelled, Distances, Candidate, Heap, PendingInsert, HnswIndex,
  is_deleted,
}
use magnitude.Hnsw.Tracker.{Tracker, next_gen}
use magnitude.Hnsw.Walk.{greedy_closest, greedy_closest_filtered, greedy_closest_bitmap}
use magnitude.Hnsw.Beam.{search_layer, search_layer_bitmap}

pub record SearchResult (F : Type 0) : Type 0 where
  pub id : ℕ
  pub distance : F
  pub score : F

module _ {F : Type 0} (ds : Distances F) where
  -- A result with its score, which the code fills in last.
  abbrev pub scored : HnswIndex F → ℕ → F → SearchResult F
  scored h id d = record { id = id; distance = d; score = ds.score_from h.metric d }

  abbrev pub nearer : SearchResult F → SearchResult F → Bool
  nearer a b = ds.less a.distance b.distance

  abbrev pub measured_pending :
      HnswIndex F → List F → List (PendingInsert F) → List (SearchResult F)
  measured_pending h query [] = []
  measured_pending h query (p ∷ ps) =
      scored h p.id (ds.batch_distance h.metric query p.vector) ∷ measured_pending h query ps

  -- `searchDirtyBuffer`, and `searchDirtyBufferBitmap`, which does not look at the bitmap.
  unfoldable pub search_dirty_buffer :
      HnswIndex F → List (PendingInsert F) → List F → ℕ → List (SearchResult F)
  unfolding sort_by
  search_dirty_buffer h buffer query k = take k (sort_by nearer (measured_pending h query buffer))

  unfoldable pub valid_pending : List ℕ → List (PendingInsert F) → List (PendingInsert F)
  valid_pending valid_ids [] = []
  valid_pending valid_ids (p ∷ ps) =
      if has p.id valid_ids then p ∷ valid_pending valid_ids ps else valid_pending valid_ids ps

  unfoldable pub search_dirty_buffer_filtered :
      HnswIndex F → List (PendingInsert F) → List F → ℕ → List ℕ → List (SearchResult F)
  unfolding sort_by valid_pending
  search_dirty_buffer_filtered h buffer query k valid_ids =
      take k (sort_by nearer (measured_pending h query (valid_pending valid_ids buffer)))

  unfoldable pub merge_results :
      List (SearchResult F) → List (SearchResult F) → ℕ → List (SearchResult F)
  unfolding sort_by
  merge_results main dirty k = take k (sort_by nearer (main ++ dirty))

  abbrev pub merge_dirty : List (SearchResult F) → List (SearchResult F) → ℕ → List (SearchResult F)
  merge_dirty main [] k = main
  merge_dirty main (r ∷ rs) k = merge_results main (r ∷ rs) k

  -- The first k candidates that are not skipped, as results.
  unfoldable pub top_results :
      HnswIndex F
      → (ℕ → Bool)
      → ℕ
      → List (Candidate F)
      → List (SearchResult F)
      → Option (List (SearchResult F))
  top_results h skipped k [] results = some results
  top_results h skipped k (c ∷ cs) results = elim (skipped c.node_idx) [
    | true ↦ top_results h skipped k cs results
    | false ↦ do
      node ← get_elem? h.nodes c.node_idx
      let next = results ++ scored h node.id c.dist ∷ []
      elim (leb k (length next)) [ true ↦ some next | false ↦ top_results h skipped k cs next ]
  ]

  -- `for lc := h.maxLevel; lc >= 1; lc--`, which asks the context on every layer: the entry point of
  -- layer 0, and how often the context was asked.
  unfoldable pub descend_asking :
      (ℕ → ℕ → Option ℕ) → (ℕ → Bool) → ℕ → ℕ → ℕ → Option (Result Error (ℕ × ℕ))
  descend_asking step done tick zero ep = some (ok (ep, tick))
  descend_asking step done tick (suc lc) ep = elim (done tick) [
    | true ↦ some (err cancelled)
    | false ↦ do next ← step ep (suc lc); descend_asking step done (tick + 1) lc next
  ]

  -- `efSearch`, overridden by nprobe, and at least k.
  abbrev pub beam_width : HnswIndex F → ℕ → ℕ → ℕ
  beam_width h k nprobe =
      let ef = if ltb 0 nprobe then nprobe else h.ef_search in if ltb ef k then k else ef

  -- The part that the three searches share: the descent, the beam search of layer 0, and the results.
  unfoldable pub search_graph :
      HnswIndex F
      → (ℕ → ℕ → Option ℕ)
      → (ℕ → ℕ → Option (List (Candidate F) × Tracker))
      → (ℕ → Bool)
      → (ℕ → Bool)
      → ℕ
      → List (SearchResult F)
      → Tracker
      → Option (Result Error (List (SearchResult F) × Tracker))
  unfolding top_results merge_results descend_asking next_gen
  search_graph h step beam skipped done k dirty vt = elim h.top [
    | none ↦ some (ok (dirty, vt))
    | some top ↦ do
      descent ← descend_asking step done 0 top.max_level top.entry_point
      elim descent [
        | err e ↦ some (err e)
        | ok (ep, tick) ↦ do
          (candidates, marked) ← beam tick ep
          results ← top_results h skipped k candidates []
          some (ok (merge_dirty results dirty k, next_gen marked))
      ]
  ]

  module _ (nearest furthest : Heap (Candidate F)) (done : ℕ → Bool) where
    -- The results and the tracker that goes back to the pool. The buffer is read under dirtyMu, before
    -- the lock of the graph, so it may be older than the graph.
    unfoldable pub search :
        HnswIndex F
        → List (PendingInsert F)
        → List F
        → ℕ
        → ℕ
        → Tracker
        → Option (Result Error (List (SearchResult F) × Tracker))
    unfolding search_dirty_buffer search_graph search_layer greedy_closest
    search h buffer query k nprobe vt =
        if not (length query == h.dim)
        then some (err dimension_mismatch)
        else if k == 0
        then some (ok ([], vt))
        else search_graph h (greedy_closest ds h query)
            (λ tick ep.
              search_layer ds nearest furthest h query done tick ep (beam_width h k nprobe) 0 vt
                none)
            (is_deleted h) done k (search_dirty_buffer h buffer query k) vt

    unfoldable pub search_filtered :
        HnswIndex F
        → List (PendingInsert F)
        → List F
        → ℕ
        → ℕ
        → List ℕ
        → Tracker
        → Option (Result Error (List (SearchResult F) × Tracker))
    unfolding search_dirty_buffer_filtered search_graph search_layer greedy_closest_filtered
    search_filtered h buffer query k nprobe valid_ids vt =
        if not (length query == h.dim)
        then some (err dimension_mismatch)
        else if k == 0 || length valid_ids == 0
        then some (ok ([], vt))
        else search_graph h (greedy_closest_filtered ds h query valid_ids)
            (λ tick ep.
              search_layer ds nearest furthest h query done tick ep (beam_width h k nprobe) 0 vt
                (some valid_ids))
            (λ _. false) done k (search_dirty_buffer_filtered h buffer query k valid_ids) vt

    -- The bitmap is its test of an index, and whether no bit is set.
    unfoldable search_filtered_bitmap :
        HnswIndex F
        → List (PendingInsert F)
        → List F
        → ℕ
        → ℕ
        → (ℕ → Bool)
        → Bool
        → Tracker
        → Option (Result Error (List (SearchResult F) × Tracker))
    unfolding search_dirty_buffer search_graph search_layer_bitmap greedy_closest_bitmap
    search_filtered_bitmap h buffer query k nprobe filter is_empty vt =
        if not (length query == h.dim)
        then some (err dimension_mismatch)
        else if k == 0 || is_empty
        then some (ok ([], vt))
        else search_graph h (greedy_closest_bitmap ds h query filter)
            (λ tick ep.
              search_layer_bitmap ds nearest furthest h query done tick ep (beam_width h k nprobe) 0
                vt filter)
            (λ _. false) done k (search_dirty_buffer h buffer query k) vt
