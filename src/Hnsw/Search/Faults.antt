-- ===== src/Hnsw/Search/Faults.antt =====
-- Searches of internal/index/hnsw/hnsw.go that miss or leak: with a tracker that the pool has just made,
-- and with a filter that no node passes.
use magnitude.Common.{
  ℕ, zero, suc, ◌<◌, ◌≡◌, refl, ap, ◌∙◌, Bool, true, false, Option, some, List, [], ◌∷◌, length,
  replicate, get_elem?, get_elem?_total, leb, nat_keyed, arith, Bool-cases, inl, inr,
}
use magnitude.Common.Keys.{has}
use magnitude.Common.Sort.{sort_by}
use magnitude.Common.Result.{Result, ok}
use magnitude.Hnsw.{◌>>=◌, All, Distances, Candidate, Heap, IsHeap, Node, HnswIndex, Error}
use magnitude.Hnsw.Tracker.{Tracker, fresh_tracker, next_gen, grow, is_visited, mark}
use magnitude.Hnsw.Walk.{is_valid_id, node_distance, greedy_closest_filtered}
use magnitude.Hnsw.Beam.{collect_unvisited, keep_valid, search_layer}
use magnitude.Hnsw.Search.{
  SearchResult, scored, valid_pending, search_dirty_buffer_filtered, top_results, descend_asking,
  beam_width, search_graph, search_filtered,
}
use magnitude.Hnsw.Valid.{layers_of-lt, HasLayer, IsValid, All-map}
use magnitude.Hnsw.Tracker.Visits.{or_zero-replicate, is_visited-grow, is_visited-mark}
use magnitude.Hnsw.Beam.Collects.{collect_unvisited-visited, collect_unvisited-new}
use magnitude.Hnsw.Link.Layers.{keep_valid-decides}
use magnitude.Hnsw.Beam.Blind.{blind_search}

module _ (keep : ℕ → Option Bool) where
  -- Friends that are all visited are not collected.
  collect_visited :
      (fs : List ℕ) (vt : Tracker)
      → ((i : ℕ) → is_visited vt i ≡ true)
      → (marked : Tracker) × (collect_unvisited keep vt fs ≡ some ([], marked))
  collect_visited [] vt all = (vt, unfold collect_unvisited in refl)
  collect_visited (f ∷ fs) vt all =
      let (marked, rest) = collect_visited fs (grow vt f) (λ i. is_visited-grow vt f i ∙ all i) in
      (marked, collect_unvisited-visited keep vt f fs (is_visited-grow vt f f ∙ all f) ∙ rest)

  -- Nor are friends that the test rejects.
  collect_rejected :
      (fs : List ℕ) (vt : Tracker)
      → All (λ f. keep f ≡ some false) fs
      → (marked : Tracker) × (collect_unvisited keep vt fs ≡ some ([], marked))
  collect_rejected [] vt rejected = (vt, unfold collect_unvisited in refl)
  collect_rejected (f ∷ fs) vt rejected = elim (Bool-cases (is_visited (grow vt f) f)) [
    | inl visited ↦
        (let (marked, rest) = collect_rejected fs (grow vt f) rejected.1 in
          (marked, collect_unvisited-visited keep vt f fs visited ∙ rest))
    | inr new ↦
        (let (marked, rest) = collect_rejected fs (mark (grow vt f) f) rejected.1 in
          (marked, collect_unvisited-new keep vt f fs [] marked false new rejected.0 rest))
  ]

fresh-visited :
    (n i : ℕ) → is_visited (record { generations = replicate n 0; current_gen = 0 }) i ≡ true
unfolding is_visited
fresh-visited n i = rw (is_visited, or_zero-replicate n i) refl

start-visited : (ep i : ℕ) → is_visited (mark (grow fresh_tracker ep) ep) i ≡ true
start-visited ep i = is_visited-mark fresh_tracker ep i ∙ ground (arith, fresh-visited 1024 i)

module _ {F : Type 0} (ds : Distances F) (nearest furthest : Heap (Candidate F))
    (is_near : IsHeap nearest) (is_far : IsHeap furthest) (h : HnswIndex F) (v : IsValid h)
    (query : List F) (done : ℕ → Bool) where
  -- On a well-formed index, a beam search with a tracker that the pool has just made, as `Search` starts
  -- it, explores nothing: it returns its entry point and no other node, whatever the friends and the
  -- beam width.
  pub fresh_tracker_blind :
      (ef layer ep tick : ℕ) (valid_ids : Option (List ℕ))
      → HasLayer h layer ep
      → (d : F) × (marked : Tracker) × (node_distance ds h query ep ≡ some d)
        × (search_layer ds nearest furthest h query done tick ep ef layer fresh_tracker valid_ids
            ≡ some ((record { node_idx = ep; dist = d }) ∷ [], marked))
  unfolding search_layer
  fresh_tracker_blind ef layer ep tick valid_ids on =
      blind_search ds nearest furthest is_near is_far h v query (keep_valid h valid_ids)
        (keep_valid-decides h v valid_ids) ef layer done ep on fresh_tracker tick
        (λ fs _.
          collect_visited (keep_valid h valid_ids) fs (mark (grow fresh_tracker ep) ep)
            (start-visited ep))

  -- No node has an id of the list.
  abbrev pub NoMatch : List ℕ → Type 0
  NoMatch valid_ids =
      (i : ℕ) (node : Node) → get_elem? h.nodes i ≡ some node → has node.id valid_ids ≡ false

  NoMatch-rejects :
      (valid_ids : List ℕ)
      → NoMatch valid_ids
      → (i : ℕ) → i < length h.nodes
      → keep_valid h (some valid_ids) i ≡ some false
  unfolding keep_valid is_valid_id
  NoMatch-rejects valid_ids misses i known =
      let (node, at) = get_elem?_total h.nodes i known in
      rw (is_valid_id, at, ◌>>=◌) (ap some (misses i node at))

  nothing_pending :
      (k : ℕ) (valid_ids : List ℕ) → search_dirty_buffer_filtered ds h [] query k valid_ids ≡ []
  unfolding search_dirty_buffer_filtered valid_pending sort_by
  nothing_pending zero valid_ids = refl
  nothing_pending (suc k) valid_ids = refl

  -- The parts of a filtered search.
  module _ (k nprobe : ℕ) (valid_ids : List ℕ) (vt : Tracker) where
    beam : ℕ → ℕ → Option (List (Candidate F) × Tracker)
    beam tick ep =
        search_layer ds nearest furthest h query done tick ep (beam_width ds h k nprobe) 0 vt
          (some valid_ids)

    graph_part : List (SearchResult F) → Option (Result Error (List (SearchResult F) × Tracker))
    graph_part dirty =
        search_graph ds h (greedy_closest_filtered ds h query valid_ids) beam (λ _. false) done k
          dirty vt

    search_filtered-graph :
        length query ≡ h.dim
        → 0 < k
        → 0 < length valid_ids
        → search_filtered ds nearest furthest done h [] query k nprobe valid_ids vt
          ≡ graph_part (search_dirty_buffer_filtered ds h [] query k valid_ids)
    unfolding search_filtered beam graph_part
    search_filtered-graph fits some_k some_ids = ground (arith, fits, some_k, some_ids)

    one_result :
        (ep : ℕ) (node : Node) (d : F)
        → get_elem? h.nodes ep ≡ some node
        → top_results ds h (λ _. false) k ((record { node_idx = ep; dist = d }) ∷ []) []
          ≡ some (scored ds h node.id d ∷ [])
    unfolding top_results
    one_result ep node d at = elim (Bool-cases (leb k 1)) [
      | inl full ↦ rw (top_results, at, ◌>>=◌, full) refl
      | inr more ↦ rw (top_results, at, ◌>>=◌, more) refl
    ]

    graph_part-single :
        (ep : ℕ) (node : Node) (d : F) (marked : Tracker)
        → h.top ≡ some (record { entry_point = ep; max_level = 0 })
        → get_elem? h.nodes ep ≡ some node
        → beam 0 ep ≡ some ((record { node_idx = ep; dist = d }) ∷ [], marked)
        → graph_part [] ≡ some (ok (scored ds h node.id d ∷ [], next_gen marked))
    unfolding search_graph descend_asking graph_part
    graph_part-single ep node d marked top at searched =
        rw (search_graph, top, ◌>>=◌, searched, one_result ep node d at) refl

  search_filtered-single :
      (k nprobe : ℕ) (valid_ids : List ℕ) (vt marked : Tracker) (ep : ℕ) (node : Node) (d : F)
      → h.top ≡ some (record { entry_point = ep; max_level = 0 })
      → length query ≡ h.dim
      → 0 < k
      → 0 < length valid_ids
      → get_elem? h.nodes ep ≡ some node
      → search_layer ds nearest furthest h query done 0 ep
          (beam_width ds h k nprobe)
          0
          vt
          (some valid_ids)
        ≡ some ((record { node_idx = ep; dist = d }) ∷ [], marked)
      → search_filtered ds nearest furthest done h [] query k nprobe valid_ids vt
        ≡ some (ok (scored ds h node.id d ∷ [], next_gen marked))
  unfolding beam search_layer
  search_filtered-single k nprobe valid_ids vt marked ep node d top fits some_k some_ids at
        searched =
      search_filtered-graph k nprobe valid_ids vt fits some_k some_ids
      ∙ ap (graph_part k nprobe valid_ids vt) (nothing_pending k valid_ids)
      ∙ graph_part-single k nprobe valid_ids vt ep node d marked top at searched

  -- On a well-formed index of one layer, where nothing was pending when the buffer was read, a filtered search whose filter no node
  -- passes returns the entry point as its one result, with any tracker.
  pub NoMatch-returns_entry :
      (k nprobe : ℕ) (valid_ids : List ℕ) (vt : Tracker) (ep : ℕ)
      → h.top ≡ some (record { entry_point = ep; max_level = 0 })
      → length query ≡ h.dim
      → 0 < k
      → 0 < length valid_ids
      → NoMatch valid_ids
      → (node : Node) × (d : F) × (used : Tracker) × (get_elem? h.nodes ep ≡ some node)
        × (node_distance ds h query ep ≡ some d)
        × (search_filtered ds nearest furthest done h [] query k nprobe valid_ids vt
            ≡ some (ok (scored ds h node.id d ∷ [], used)))
  unfolding search_layer
  NoMatch-returns_entry k nprobe valid_ids vt ep top fits some_k some_ids misses =
      let on = v.entry (record { entry_point = ep; max_level = 0 }) top in
      let known = layers_of-lt h.nodes 0 ep on in
      let (node, at) = get_elem?_total h.nodes ep known in
      let keep = keep_valid h (some valid_ids) in
      let (d, marked, found, searched) =
        blind_search ds nearest furthest is_near is_far h v query keep
          (keep_valid-decides h v (some valid_ids)) (beam_width ds h k nprobe) 0 done ep on vt 0
          (λ fs linked. collect_rejected keep fs (mark (grow vt ep) ep) (
            All-map (HasLayer h 0) (λ f. keep f ≡ some false)
              (λ f on_f. NoMatch-rejects valid_ids misses f (layers_of-lt h.nodes 0 f on_f)) fs
              linked)) in
      (
        node,
        d,
        next_gen marked,
        at,
        found,
        search_filtered-single k nprobe valid_ids vt marked ep node d top fits some_k some_ids at
            searched,
      )
