-- ===== src/Hnsw/Link/Inserts.antt =====
-- `insertLocked` of internal/index/hnsw/hnsw.go as a whole.
use magnitude.Common.{
  ℕ, ◌+◌, ◌≡◌, refl, subst, ◌∙◌, true, false, Option, none, some, List, [], ◌∷◌, ◌++◌, length,
  length-replicate, ltb, nat_keyed, if◌then◌else◌, arith, Bool-cases, Option-cases, inl, inr,
}
use magnitude.Hnsw.{◌>>=◌, Distances, Candidate, Heap, IsHeap, Node, Top, HnswIndex, friends_at}
use magnitude.Hnsw.Tracker.{Tracker, next_gen}
use magnitude.Hnsw.Link.{append_node, set_top, descend, link_layers, connect, add_new}
use magnitude.Hnsw.Valid.{layers_of, HasLayer, IsValid}
use magnitude.Hnsw.Walk.Ends.{IsOrder}
use magnitude.Hnsw.Link.Friends.{Relinked, Relinked-refl, with_nodes, some_inj}
use magnitude.Hnsw.Link.Layers.{descend_total, link_layers_total}
use magnitude.Hnsw.Link.Appends.{new_node, layers_of-append_last, append_node-IsValid}

-- An index with other nodes and another top.
abbrev pub linked_index : {F : Type 0} → HnswIndex F → List Node → Option Top → HnswIndex F
linked_index h nodes top = record h { nodes = nodes; top = top }

set_top-IsValid :
    {F : Type 0} (h : HnswIndex F) (node_idx level : ℕ)
    → IsValid h
    → HasLayer h level node_idx
    → IsValid (set_top h node_idx level)
unfolding friends_at
set_top-IsValid h node_idx level v on = record {
  room = v.room;
  offsets = v.offsets;
  vectors = v.vectors;
  links = v.links;
  entry = λ top at. subst (λ t. HasLayer h t.max_level t.entry_point) (some_inj at) on;
}

module _ {F : Type 0} (ds : Distances F) (order : IsOrder ds.less)
    (nearest furthest : Heap (Candidate F)) (is_near : IsHeap nearest)
    (is_far : IsHeap furthest) where
  module _ (h : HnswIndex F) (top : Top) (vector : List F) (node_idx level : ℕ) (vt : Tracker)
      (ep : ℕ) (linked : HnswIndex F) (marked : Tracker)
      (descended : descend ds h vector level top.max_level top.entry_point ≡ some ep)
      (joined : link_layers ds nearest furthest h vector node_idx
          ((if ltb top.max_level level then top.max_level else level) + 1)
          ep
          vt
        ≡ some (linked, marked)) where
    connect-linked :
        connect ds nearest furthest h top vector node_idx level vt
        ≡ some (
          if ltb top.max_level level then set_top linked node_idx level else linked,
          next_gen marked,
        )
    unfolding connect
    connect-linked = rw (connect, descended, ◌>>=◌, joined) refl

    connect-higher :
        ltb top.max_level level ≡ true
        → connect ds nearest furthest h top vector node_idx level vt
          ≡ some (set_top linked node_idx level, next_gen marked)
    connect-higher higher = connect-linked ∙ rw higher refl

    connect-lower :
        ltb top.max_level level ≡ false
        → connect ds nearest furthest h top vector node_idx level vt
          ≡ some (linked, next_gen marked)
    connect-lower lower = connect-linked ∙ rw lower refl

  connect_total :
      (h : HnswIndex F) (v : IsValid h) (top : Top) (vector : List F) (node_idx level : ℕ)
      (vt : Tracker)
      → h.top ≡ some top
      → layers_of h.nodes node_idx ≡ level + 1
      → (nodes : List Node) × (next : Option Top) × (used : Tracker) × (connect ds nearest furthest
            h top vector node_idx level vt
          ≡ some (linked_index h nodes next, used))
        × Relinked h.nodes nodes
        × IsValid (linked_index h nodes next)
  connect_total h v top vector node_idx level vt at_top long =
      let (ep, descended, on) =
        descend_total ds order h v vector level top.max_level top.entry_point
          (v.entry top at_top) in
      let (nodes, marked, joined, r, v') =
        link_layers_total ds order nearest furthest is_near is_far h v vector node_idx
          ((if ltb top.max_level level then top.max_level else level) + 1) ep vt
          (ground (arith, long)) (omega (arith, on)) in
      elim (Bool-cases (ltb top.max_level level)) [
        | inl higher ↦ (
          nodes,
          some (record { entry_point = node_idx; max_level = level }),
          next_gen marked,
          connect-higher h top vector node_idx level vt ep (with_nodes h nodes) marked descended
              joined higher,
          r,
          set_top-IsValid (with_nodes h nodes) node_idx level v'
              (omega (arith, r.layers node_idx, long)),
        )
        | inr lower ↦ (
          nodes,
          h.top,
          next_gen marked,
          connect-lower h top vector node_idx level vt ep (with_nodes h nodes) marked descended
              joined lower,
          r,
          v',
        )
      ]

  add_new-first :
      (h : HnswIndex F) (id : ℕ) (vector : List F) (level : ℕ) (vt : Tracker)
      → h.top ≡ none
      → add_new ds nearest furthest h id vector level vt
        ≡ some (set_top (append_node h id vector level) (length h.nodes) level, vt)
  unfolding add_new
  add_new-first h id vector level vt first = rw (add_new, first) refl

  add_new-later :
      (h : HnswIndex F) (id : ℕ) (vector : List F) (level : ℕ) (vt : Tracker) (top : Top)
      → h.top ≡ some top
      → add_new ds nearest furthest h id vector level vt
        ≡ connect ds nearest furthest
            (append_node h id vector level)
            top
            vector
            (length h.nodes)
            level
            vt
  unfolding add_new
  add_new-later h id vector level vt top later = simp (add_new, later)

  -- A new node, stored and linked.
  pub add_new_total :
      (h : HnswIndex F) (v : IsValid h) (id : ℕ) (vector : List F) (level : ℕ) (vt : Tracker)
      → length vector ≡ h.dim
      → (nodes : List Node) × (next : Option Top) × (used : Tracker) × (add_new ds nearest furthest
            h id vector level vt
          ≡ some (linked_index (append_node h id vector level) nodes next, used))
        × Relinked (h.nodes ++ new_node id level ∷ []) nodes
        × IsValid (linked_index (append_node h id vector level) nodes next)
  unfolding append_node
  add_new_total h v id vector level vt fits =
      let stored = append_node h id vector level in
      let v' = append_node-IsValid h v id vector level fits in
      let long : layers_of stored.nodes (length h.nodes) ≡ level + 1 =
        layers_of-append_last h.nodes (new_node id level)
        ∙ length-replicate {A = List ℕ} (level + 1) [] in
      elim (Option-cases h.top) [
        | inl first ↦ (
          stored.nodes,
          some (record { entry_point = length h.nodes; max_level = level }),
          vt,
          add_new-first h id vector level vt first,
          Relinked-refl stored.nodes,
          set_top-IsValid stored (length h.nodes) level v' (omega (arith, long)),
        )
        | inr (top, later) ↦
            (let (nodes, next, used, at, r, v'') =
                connect_total stored v' top vector (length h.nodes) level vt later long in
              (nodes, next, used, add_new-later h id vector level vt top later ∙ at, r, v''))
      ]
