-- ===== src/Hnsw/Link.antt =====
-- `insertLocked`, `drainDirtyBuffer` and `Rebuild` of internal/index/hnsw/hnsw.go, and how a new node
-- is linked to its neighbors.
pub mod Neighbors
pub mod Friends
pub mod Edges
pub mod Layers
pub mod Appends
pub mod Inserts
pub mod Stored
pub mod Growth
pub mod Rebuilds
use magnitude.Common.{
  ℕ, zero, suc, ◌+◌, Bool, true, false, Option, none, some, List, [], ◌∷◌, ◌++◌, length, replicate,
  ltb, leb, ◌==◌, nat_keyed, if◌then◌else◌,
}
use magnitude.Common.Dict
use magnitude.Common.Dict.{Dict}
use magnitude.Common.Sort.{sort_by}
use magnitude.Common.Result.{Result, ok, err}
use magnitude.Hnsw.{
  ◌>>=◌, Error, duplicate_id, Distances, Candidate, Heap, Node, Top, PendingInsert, HnswIndex,
  node_vector, friends_at, set_friends, is_deleted,
}
use magnitude.Hnsw.Tracker.{Tracker, next_gen}
use magnitude.Hnsw.Walk.{greedy_closest}
use magnitude.Hnsw.Beam.{search_layer}

module _ {F : Type 0} where
  abbrev pub max_conn : HnswIndex F → ℕ → ℕ
  max_conn h layer = if layer == 0 then h.m_max0 else h.m

  abbrev pub first_or : List (Candidate F) → ℕ → ℕ
  first_or [] ep = ep
  first_or (c ∷ cs) ep = c.node_idx

  abbrev pub set_top : HnswIndex F → ℕ → ℕ → HnswIndex F
  set_top h node_idx level = record h {
    top = some (record { entry_point = node_idx; max_level = level });
  }

  -- The new node, stored but not linked.
  unfoldable pub append_node : HnswIndex F → ℕ → List F → ℕ → HnswIndex F
  append_node h id vector level = record h {
    nodes = h.nodes ++ (record { id = id; level = level; friends = replicate (level + 1) [] }) ∷ [];
    id_to_node = Dict.insert id (length h.nodes) h.id_to_node;
    vector_slab = h.vector_slab ++ vector;
    vector_offsets = h.vector_offsets ++ length h.vector_slab ∷ [];
  }

  -- The first critical section of `drainDirtyBuffer`: the batch is taken from the buffer.
  unfoldable pub take_batch : HnswIndex F → HnswIndex F × List (PendingInsert F)
  take_batch h = (record h { dirty = [] }, h.dirty)

  -- What `Rebuild` resets. The slab and the offsets stay.
  unfoldable pub reset_graph : HnswIndex F → HnswIndex F
  reset_graph h = record h { nodes = []; id_to_node = []; deleted = []; top = none }

module _ {F : Type 0} (ds : Distances F) where
  abbrev pub indices : List (Candidate F) → List ℕ
  indices [] = []
  indices (c ∷ cs) = c.node_idx ∷ indices cs

  abbrev pub closer : Candidate F → Candidate F → Bool
  closer a b = ds.less a.dist b.dist

  module _ (h : HnswIndex F) where
    -- Whether some selected neighbor is closer to the candidate than the query is.
    unfoldable pub is_covered : List F → F → List ℕ → Option Bool
    unfolding node_vector
    is_covered cv d [] = some false
    is_covered cv d (r ∷ rs) = do
      rv ← node_vector h r
      elim (ds.less (ds.distance_func h.metric cv rv) d) [
        | true ↦ some true
        | false ↦ is_covered cv d rs
      ]

    -- The loop over the candidates, with the neighbors selected so far.
    unfoldable pub select_loop : ℕ → List (Candidate F) → List ℕ → Option (List ℕ)
    unfolding is_covered
    select_loop m [] result = some result
    select_loop m (c ∷ cs) result = elim (leb m (length result)) [
      | true ↦ some result
      | false ↦ do
        cv ← node_vector h c.node_idx
        covered ← is_covered cv c.dist result
        select_loop m cs (if covered then result else result ++ c.node_idx ∷ [])
    ]

    unfoldable pub select_neighbors : List (Candidate F) → ℕ → Option (List ℕ)
    unfolding select_loop
    select_neighbors candidates m =
        if leb (length candidates) m then some (indices candidates) else select_loop m candidates []

    unfoldable pub as_candidates : List F → List ℕ → Option (List (Candidate F))
    unfolding node_vector
    as_candidates vec [] = some []
    as_candidates vec (f ∷ fs) = do
      fv ← node_vector h f
      rest ← as_candidates vec fs
      some ((record { node_idx = f; dist = ds.distance_func h.metric vec fv }) ∷ rest)

    unfoldable pub prune_connections : List F → List ℕ → ℕ → Option (List ℕ)
    unfolding sort_by select_neighbors as_candidates
    prune_connections vec friends max_conn =
        if leb (length friends) max_conn then some friends else (do
          candidates ← as_candidates vec friends
          select_neighbors (sort_by closer candidates) max_conn)

  -- The edge back from a neighbor, and the pruning of the neighbor.
  unfoldable pub link_back : ℕ → ℕ → ℕ → HnswIndex F → ℕ → Option (HnswIndex F)
  unfolding friends_at set_friends prune_connections
  link_back node_idx layer max_conn h neighbor = do
    old ← friends_at h neighbor layer
    let friends = old ++ node_idx ∷ []
    linked ← set_friends h neighbor layer friends
    elim (ltb max_conn (length friends)) [
      | true ↦ do
        vec ← node_vector linked neighbor
        pruned ← prune_connections linked vec friends max_conn
        set_friends linked neighbor layer pruned
      | false ↦ some linked
    ]

  unfoldable pub link_all : ℕ → ℕ → ℕ → HnswIndex F → List ℕ → Option (HnswIndex F)
  unfolding link_back
  link_all node_idx layer max_conn h [] = some h
  link_all node_idx layer max_conn h (n ∷ ns) = do
    linked ← link_back node_idx layer max_conn h n
    link_all node_idx layer max_conn linked ns

  -- `for lc := h.maxLevel; lc > level; lc--`, from the layer given.
  unfoldable pub descend : HnswIndex F → List F → ℕ → ℕ → ℕ → Option ℕ
  descend h vector level zero ep = some ep
  descend h vector level (suc lc) ep = elim (ltb level (suc lc)) [
    | true ↦ do next ← greedy_closest ds h vector ep (suc lc); descend h vector level lc next
    | false ↦ some ep
  ]

  module _ (nearest furthest : Heap (Candidate F)) where
    -- One layer of phase 2: the index, the entry point of the next layer, and the tracker.
    unfoldable pub link_layer :
        HnswIndex F → List F → ℕ → ℕ → ℕ → Tracker → Option (HnswIndex F × ℕ × Tracker)
    unfolding search_layer select_neighbors link_all set_friends next_gen
    link_layer h vector node_idx layer ep vt = do
      (candidates, marked) ←
          search_layer ds nearest furthest h vector (λ _. false) 0 ep h.ef_construction layer
            (next_gen vt) none
      neighbors ← select_neighbors h candidates (max_conn h layer)
      placed ← set_friends h node_idx layer neighbors
      linked ← link_all node_idx layer (max_conn h layer) placed neighbors
      some (linked, first_or candidates ep, marked)

    -- `for lc := topLayer; lc >= 0; lc--`, for the layers below the number given.
    unfoldable pub link_layers :
        HnswIndex F → List F → ℕ → ℕ → ℕ → Tracker → Option (HnswIndex F × Tracker)
    unfolding link_layer
    link_layers h vector node_idx zero ep vt = some (h, vt)
    link_layers h vector node_idx (suc layer) ep vt = do
      (linked, next, marked) ← link_layer h vector node_idx layer ep vt
      link_layers linked vector node_idx layer next marked

    -- The two phases, on the index that holds the new node.
    unfoldable pub connect :
        HnswIndex F → Top → List F → ℕ → ℕ → Tracker → Option (HnswIndex F × Tracker)
    unfolding descend link_layers next_gen
    connect h top vector node_idx level vt = do
      ep ← descend h vector level top.max_level top.entry_point
      let top_layer = if ltb top.max_level level then top.max_level else level
      (linked, marked) ← link_layers h vector node_idx (top_layer + 1) ep vt
      some (
        if ltb top.max_level level then set_top linked node_idx level else linked,
        next_gen marked,
      )

    unfoldable pub add_new : HnswIndex F → ℕ → List F → ℕ → Tracker → Option (HnswIndex F × Tracker)
    unfolding append_node connect
    add_new h id vector level vt = elim h.top [
      | none ↦ some (set_top (append_node h id vector level) (length h.nodes) level, vt)
      | some top ↦ connect (append_node h id vector level) top vector (length h.nodes) level vt
    ]

    -- The new index and the tracker that goes back to the pool; or a duplicate.
    unfoldable pub insert_locked :
        HnswIndex F → ℕ → List F → ℕ → Tracker → Option (Result Error (HnswIndex F × Tracker))
    unfolding add_new
    insert_locked h id vector level vt = elim (Dict.lookup id h.id_to_node) [
      | none ↦ do added ← add_new h id vector level vt; some (ok added)
      | some i ↦
          if is_deleted h i
          then (do
            added ←
                add_new (record h { id_to_node = Dict.delete id h.id_to_node }) id vector level vt
            some (ok added))
          else some (err duplicate_id)
    ]

    module _ (levels : ℕ → ℕ) where
      -- The second critical section of `drainDirtyBuffer`: the loop over the batch that it has taken,
      -- with the map of what was drained. `levels` is the level drawn for
      -- the node with the number given.
      unfoldable pub drain_batch :
          HnswIndex F
          → List (PendingInsert F)
          → Tracker
          → Dict ℕ ℕ
          → Option (HnswIndex F × Tracker × Dict ℕ ℕ)
      unfolding insert_locked
      drain_batch h [] vt drained = some (h, vt, drained)
      drain_batch h (p ∷ ps) vt drained = do
        inserted ← insert_locked h p.id p.vector (levels (length h.nodes)) vt
        elim inserted [
          | err e ↦ drain_batch h ps vt drained
          | ok (next, used) ↦ drain_batch next ps used (Dict.insert p.id (length h.nodes) drained)
        ]

      -- Both sections, with no other call between them.
      unfoldable pub drain_dirty_buffer :
          HnswIndex F → Tracker → Option (HnswIndex F × Tracker × Dict ℕ ℕ)
      unfolding take_batch drain_batch
      drain_dirty_buffer h vt = let (left, batch) = take_batch h in drain_batch left batch vt []

      -- The live nodes from the i-th on, with the vectors that they have.
      unfoldable pub live_nodes : HnswIndex F → ℕ → List Node → Option (List (PendingInsert F))
      unfolding node_vector
      live_nodes h i [] = some []
      live_nodes h i (n ∷ ns) =
          let rest = live_nodes h (suc i) ns in
          if is_deleted h i then rest else (do
            vec ← node_vector h i
            others ← rest
            some ((record { id = n.id; vector = vec }) ∷ others))

      -- The loop that inserts the live nodes anew. The first error ends it.
      unfoldable pub reinsert :
          HnswIndex F
          → List (PendingInsert F)
          → Tracker
          → Option (Result Error (HnswIndex F × Tracker))
      unfolding insert_locked
      reinsert h [] vt = some (ok (h, vt))
      reinsert h (p ∷ ps) vt = do
        inserted ← insert_locked h p.id p.vector (levels (length h.nodes)) vt
        elim inserted [ err e ↦ some (err e) | ok (next, used) ↦ reinsert next ps used ]

      unfoldable pub rebuild : HnswIndex F → Tracker → Option (Result Error (HnswIndex F × Tracker))
      unfolding drain_dirty_buffer live_nodes reinsert reset_graph
      rebuild start vt = do
        (h, used, drained) ← drain_dirty_buffer start vt
        elim (length h.deleted == 0) [
          | true ↦ some (ok (h, used))
          | false ↦ do live ← live_nodes h 0 h.nodes; reinsert (reset_graph h) live used
        ]
