-- ===== src/Hnsw/Link/Layers.antt =====
-- The layers that `insertLocked` of internal/index/hnsw/hnsw.go links a node on, from the top.
use magnitude.Common.{
  ℕ, zero, suc, ◌≤◌, ◌<◌, ◌≡◌, refl, ◌∙◌, Bool, true, false, Option, none, some, List, [], ◌∷◌,
  length, ltb, if◌then◌else◌, arith, Bool-cases, inl, inr,
}
use magnitude.Hnsw.{◌>>=◌, All, Distances, Candidate, Heap, IsHeap, Node, HnswIndex, set_friends}
use magnitude.Hnsw.Tracker.{Tracker, next_gen}
use magnitude.Hnsw.Walk.{greedy_closest}
use magnitude.Hnsw.Beam.{keep_valid, search_layer}
use magnitude.Hnsw.Link.{
  max_conn, first_or, select_neighbors, link_all, descend, link_layer, link_layers,
}
use magnitude.Hnsw.Valid.{
  layers_of, layers_of-lt, HasLayer, IsValid, All-map, node_vector_total, is_valid_id_total,
}
use magnitude.Hnsw.Walk.Ends.{IsOrder}
use magnitude.Hnsw.Walk.Greedy.{greedy_closest_total}
use magnitude.Hnsw.Beam.Reached.{IsReached, beam_search_total}
use magnitude.Hnsw.Link.Neighbors.{IsAt, select_neighbors_total}
use magnitude.Hnsw.Link.Friends.{
  Relinked, Relinked-refl, Relinked-trans, with_nodes, All-moved, set_friends_total,
}
use magnitude.Hnsw.Link.Edges.{link_all_total}

pub keep_valid-decides :
    {F : Type 0} (h : HnswIndex F) (v : IsValid h) (valid_ids : Option (List ℕ)) (i : ℕ)
    → i < length h.nodes
    → (b : Bool) × (keep_valid h valid_ids i ≡ some b)
keep_valid-decides h v none i known = (true, unfold keep_valid in refl)
keep_valid-decides h v (some ids) i known =
    let (b, at) = is_valid_id_total h v ids i known in (b, unfold keep_valid in at)

module _ {F : Type 0} (ds : Distances F) (order : IsOrder ds.less) where
  descend-below :
      (h : HnswIndex F) (vector : List F) (level lc ep next : ℕ)
      → ltb level (suc lc) ≡ true
      → greedy_closest ds h vector ep (suc lc) ≡ some next
      → descend ds h vector level (suc lc) ep ≡ descend ds h vector level lc next
  unfolding descend
  descend-below h vector level lc ep next below at = rw (descend, below, at, ◌>>=◌) refl

  descend-stops :
      (h : HnswIndex F) (vector : List F) (level lc ep : ℕ)
      → ltb level (suc lc) ≡ false
      → descend ds h vector level (suc lc) ep ≡ some ep
  unfolding descend
  descend-stops h vector level lc ep stops = rw (descend, stops) refl

  -- The descent ends on a node with the layers that are linked next.
  pub descend_total :
      (h : HnswIndex F) (v : IsValid h) (vector : List F) (level lc ep : ℕ)
      → HasLayer h lc ep
      → (next : ℕ) × (descend ds h vector level lc ep ≡ some next)
        × HasLayer h (if ltb lc level then lc else level) next
  descend_total h v vector level zero ep on = (ep, unfold descend in refl, ground (arith, on))
  descend_total h v vector level (suc lc) ep on = elim (Bool-cases (ltb level (suc lc))) [
    | inl below ↦
        (let (next, at, on') = greedy_closest_total ds order h v vector (suc lc) ep on in
          let (last, ends, fits) = descend_total h v vector level lc next (omega (arith, on')) in
          (
            last,
            descend-below h vector level lc ep next below at ∙ ends,
            ground (arith, fits, below),
          ))
    | inr stops ↦ (ep, descend-stops h vector level lc ep stops, ground (arith, on, stops))
  ]

  module _ (nearest furthest : Heap (Candidate F)) (is_near : IsHeap nearest)
      (is_far : IsHeap furthest) where
    link_layer-linked :
        (h : HnswIndex F) (vector : List F) (node_idx layer ep : ℕ) (vt marked : Tracker)
        (cs : List (Candidate F)) (ns : List ℕ) (placed linked : HnswIndex F)
        → search_layer ds nearest furthest h vector
            (λ _. false)
            0
            ep
            h.ef_construction
            layer
            (next_gen vt)
            none
          ≡ some (cs, marked)
        → select_neighbors ds h cs (max_conn h layer) ≡ some ns
        → set_friends h node_idx layer ns ≡ some placed
        → link_all ds node_idx layer (max_conn h layer) placed ns ≡ some linked
        → link_layer ds nearest furthest h vector node_idx layer ep vt
          ≡ some (linked, first_or cs ep, marked)
    unfolding link_layer
    link_layer-linked h vector node_idx layer ep vt marked cs ns placed linked p q r s =
        rw (link_layer, p, ◌>>=◌, q, r, s) refl

    first_or-on :
        (P : ℕ → Type 0) (cs : List (Candidate F)) (ep : ℕ)
        → All (IsAt P) cs
        → P ep
        → P (first_or cs ep)
    first_or-on P [] ep ok on = on
    first_or-on P (c ∷ cs) ep ok on = ok.0

    link_layer_total :
        (h : HnswIndex F) (v : IsValid h) (vector : List F) (node_idx layer ep : ℕ) (vt : Tracker)
        → HasLayer h layer node_idx
        → HasLayer h layer ep
        → (nodes : List Node) × (next : ℕ) × (marked : Tracker) × (link_layer ds nearest furthest h
              vector node_idx layer ep vt
            ≡ some (with_nodes h nodes, next, marked))
          × Relinked h.nodes nodes
          × IsValid (with_nodes h nodes)
          × HasLayer h layer next
    unfolding search_layer
    link_layer_total h v vector node_idx layer ep vt on_new on =
        let keep = keep_valid h none in
        let (cs, marked, searched, reached, some_result) =
          beam_search_total ds nearest furthest is_near is_far h v vector keep
            (keep_valid-decides h v none) h.ef_construction layer (λ _. false) ep (next_gen vt) 0
            on in
        let at_layer =
          All-map
            (IsReached ds nearest furthest is_near is_far h v vector keep
              (keep_valid-decides h v none) h.ef_construction layer (λ _. false) ep)
            (IsAt (HasLayer h layer)) (λ c r. r.on_layer) cs reached in
        let (ns, selected, s) =
          select_neighbors_total ds h (HasLayer h layer)
            (λ i on_i.
              let (vec, found, _) = node_vector_total h v i (layers_of-lt h.nodes layer i on_i) in
              (vec, found))
            cs (max_conn h layer) at_layer in
        let (placed, at, r, v') = set_friends_total h v node_idx layer ns on_new s.few s.all in
        let (nodes, linked, r', v'') =
          link_all_total ds (with_nodes h placed) node_idx layer ns v'
            (rw (r.layers node_idx) on_new) (All-moved h.nodes placed layer r ns s.all) in
        (
          nodes,
          first_or cs ep,
          marked,
          link_layer-linked h vector node_idx layer ep vt marked cs ns (with_nodes h placed)
              (with_nodes h nodes) searched selected at linked,
          Relinked-trans h.nodes placed nodes r r',
          v'',
          first_or-on (HasLayer h layer) cs ep at_layer on,
        )

    link_layers-step :
        (h next : HnswIndex F) (vector : List F) (node_idx layer ep ep' : ℕ) (vt marked : Tracker)
        → link_layer ds nearest furthest h vector node_idx layer ep vt ≡ some (next, ep', marked)
        → link_layers ds nearest furthest h vector node_idx (suc layer) ep vt
          ≡ link_layers ds nearest furthest next vector node_idx layer ep' marked
    unfolding link_layers
    link_layers-step h next vector node_idx layer ep ep' vt marked at =
        rw (link_layers, at, ◌>>=◌) refl

    -- All layers up to one that both the node and the entry point have.
    pub link_layers_total :
        (h : HnswIndex F) (v : IsValid h) (vector : List F) (node_idx count ep : ℕ) (vt : Tracker)
        → count ≤ layers_of h.nodes node_idx
        → count ≤ layers_of h.nodes ep
        → (nodes : List Node) × (marked : Tracker) × (link_layers ds nearest furthest h vector
              node_idx count ep vt
            ≡ some (with_nodes h nodes, marked))
          × Relinked h.nodes nodes
          × IsValid (with_nodes h nodes)
    link_layers_total h v vector node_idx zero ep vt on_new on =
        (h.nodes, vt, unfold link_layers in refl, Relinked-refl h.nodes, v)
    link_layers_total h v vector node_idx (suc layer) ep vt on_new on =
        let (nodes, next, marked, at, r, v', on') =
          link_layer_total h v vector node_idx layer ep vt on_new on in
        let (nodes', marked', at', r', v'') =
          link_layers_total (with_nodes h nodes) v' vector node_idx layer next marked
            (omega (arith, r.layers node_idx)) (omega (arith, r.layers next, on')) in
        (
          nodes',
          marked',
          link_layers-step h (with_nodes h nodes) vector node_idx layer ep next vt marked at ∙ at',
          Relinked-trans h.nodes nodes nodes' r r',
          v'',
        )
