-- ===== src/Hnsw/Search/Finds.antt =====
-- `Search`, `SearchFiltered` and `SearchFilteredBitmap` of internal/index/hnsw/hnsw.go on a well-formed
-- index.
use magnitude.Common.{
  ℕ, suc, ◌≤◌, ◌<◌, ◌≡◌, ◌⊎◌, refl, ◌∙◌, Bool, false, none, some, List, [], ◌∷◌, length,
  length-take, get_elem?, nat_keyed, arith, inl, inr,
}
use magnitude.Common.Sort.{sort_by}
use magnitude.Common.Result.{ok, err}
use magnitude.Hnsw.{
  All, cancelled, Distances, Candidate, Heap, IsHeap, Node, PendingInsert, HnswIndex, is_deleted,
}
use magnitude.Hnsw.Tracker.{Tracker}
use magnitude.Hnsw.Walk.{greedy_closest}
use magnitude.Hnsw.Beam.{keep_valid, search_layer}
use magnitude.Hnsw.Search.{
  SearchResult, scored, nearer, measured_pending, search_dirty_buffer, beam_width, search_graph,
  search,
}
use magnitude.Hnsw.Valid.{HasLayer, All-map}
use magnitude.Hnsw.Walk.Ends.{IsOrder}
use magnitude.Hnsw.Walk.Greedy.{greedy_closest_total}
use magnitude.Hnsw.Link.Neighbors.{sort_by-All}
use magnitude.Hnsw.Beam.Reached.{FromVector, IsReached, beam_search_total}
use magnitude.Hnsw.Link.Friends.{id_at}
use magnitude.Hnsw.Link.Layers.{keep_valid-decides}
use magnitude.Hnsw.Link.Stored.{node_index-live}
use magnitude.Hnsw.Vectors.{IsIndexed, vector_of, vector_of-some}
use magnitude.Hnsw.Puts.{IsWellFormed}
use magnitude.Hnsw.Search.Found.{take-All, search_graph_total}

abbrev pub IsPending : {F : Type 0} → PendingInsert F → List (PendingInsert F) → Type 0
IsPending p ps = (i : ℕ) × (get_elem? ps i ≡ some p)

id_at_found :
    (nodes : List Node) (i : ℕ) (node : Node)
    → get_elem? nodes i ≡ some node
    → id_at nodes i ≡ some node.id
unfolding id_at
id_at_found nodes i node at = rw (id_at, at) refl

module _ {F : Type 0} (ds : Distances F) (h : HnswIndex F) (buffer : List (PendingInsert F))
    (query : List F) where
  -- A result of a search: the distance of the query from a vector, which is the vector of the id in the
  -- graph, or is pending under the id.
  pub record IsFound (r : SearchResult F) : Type 0 where
    pub vector : List F
    pub place :
        (vector_of h r.id ≡ some vector) ⊎ IsPending (record { id = r.id; vector = vector }) buffer
    pub measured :
        (r.distance ≡ ds.distance_func h.metric query vector)
        ⊎ (r.distance ≡ ds.batch_distance h.metric query vector)
    pub score : r.score ≡ ds.score_from h.metric r.distance

  measured_pending-IsFound :
      (ps : List (PendingInsert F))
      → ((p : PendingInsert F) → IsPending p ps → IsPending p buffer)
      → All IsFound (measured_pending ds h query ps)
  measured_pending-IsFound [] inside = tt
  measured_pending-IsFound (p ∷ ps) inside = (
    record {
      vector = p.vector;
      place = inr (inside p (0, refl));
      measured = inr refl;
      score = refl;
    },
    measured_pending-IsFound ps (λ q at. inside q (suc at.0, at.1)),
  )

  search_dirty_buffer-IsFound :
      (k : ℕ)
      → All IsFound (search_dirty_buffer ds h buffer query k)
        × (length (search_dirty_buffer ds h buffer query k) ≤ k)
  unfolding search_dirty_buffer
  search_dirty_buffer-IsFound k = (
    take-All IsFound k (sort_by (nearer ds) (measured_pending ds h query buffer)) (
        sort_by-All (nearer ds) IsFound (measured_pending ds h query buffer)
          (measured_pending-IsFound buffer (λ p at. at))),
    omega (arith, length-take k (sort_by (nearer ds) (measured_pending ds h query buffer))),
  )

  graph-IsFound :
      (x : IsIndexed h) (i : ℕ) (d : F) (node : Node)
      → FromVector ds h query i d
      → is_deleted h i ≡ false
      → get_elem? h.nodes i ≡ some node
      → IsFound (scored ds h node.id d)
  graph-IsFound x i d node from live at =
      let known = x.live i node.id (id_at_found h.nodes i node at) live in
      record {
        vector = from.vector;
        place =
            inl (vector_of-some h node.id i (node_index-live h node.id i known live) ∙ from.stored);
        measured = from.measured;
        score = refl;
      }

module _ {F : Type 0} (ds : Distances F) (order : IsOrder ds.less)
    (nearest furthest : Heap (Candidate F)) (is_near : IsHeap nearest) (is_far : IsHeap furthest)
    (done : ℕ → Bool) (h : HnswIndex F) (w : IsWellFormed h) (buffer : List (PendingInsert F))
    (query : List F) (fits : length query ≡ h.dim) (k nprobe : ℕ) (some_k : 0 < k)
    (vt : Tracker) where
  search-graph :
      search ds nearest furthest done h buffer query k nprobe vt
      ≡ search_graph ds h
          (greedy_closest ds h query)
          (λ tick ep.
            search_layer ds nearest furthest h query done tick ep
              (beam_width ds h k nprobe)
              0
              vt
              none)
          (is_deleted h)
          done
          k
          (search_dirty_buffer ds h buffer query k)
          vt
  unfolding search
  search-graph = ground (arith, fits, some_k)

  beams :
      (ef tick ep : ℕ)
      → HasLayer h 0 ep
      → (cs : List (Candidate F)) × (marked : Tracker) × (search_layer ds nearest furthest h query
            done tick ep ef 0 vt none
          ≡ some (cs, marked))
        × All (λ c. HasLayer h 0 c.node_idx × FromVector ds h query c.node_idx c.dist) cs
  unfolding search_layer
  beams ef tick ep on =
      let keep = keep_valid h none in
      let decides = keep_valid-decides h w.valid none in
      let (cs, marked, searched, reached, _) =
        beam_search_total ds nearest furthest is_near is_far h w.valid query keep decides ef 0 done
          ep vt tick on in
      (
        cs,
        marked,
        searched,
        All-map
            (IsReached ds nearest furthest is_near is_far h w.valid query keep decides ef 0 done ep)
            (λ c. HasLayer h 0 c.node_idx × FromVector ds h query c.node_idx c.dist)
            (λ c r. (r.on_layer, r.distance)) cs reached,
      )

  -- On a well-formed index, a search with a query of the right length and a positive k returns, with any
  -- tracker of the pool and any content of the buffer when it was read: it reports the end of the
  -- context, or has at most k results, each the distance from a live vector of the id or one that was
  -- pending under it.
  pub search_finds :
      (search ds nearest furthest done h buffer query k nprobe vt ≡ some (err cancelled))
      ⊎ ((results : List (SearchResult F)) × (used : Tracker) × (search ds nearest furthest done h
              buffer query k nprobe vt
            ≡ some (ok (results, used)))
          × All (IsFound ds h buffer query) results
          × (length results ≤ k))
  search_finds =
      let pending = search_dirty_buffer-IsFound ds h buffer query k in
      let ef = beam_width ds h k nprobe in
      rw search-graph (
        search_graph_total ds h w.valid (λ c. FromVector ds h query c.node_idx c.dist)
          (IsFound ds h buffer query) (is_deleted h)
          (λ c node from live at.
            graph-IsFound ds h buffer query w.indexed c.node_idx c.dist node from live at)
          k (greedy_closest ds h query) (greedy_closest_total ds order h w.valid query) done
          (λ tick ep. search_layer ds nearest furthest h query done tick ep ef 0 vt none)
          (λ top tick ep _ _ on. beams ef tick ep on) (search_dirty_buffer ds h buffer query k) vt
          some_k pending.0 pending.1)
