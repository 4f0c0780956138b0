-- ===== src/Hnsw/Link/Edges.antt =====
-- The edges that `insertLocked` of internal/index/hnsw/hnsw.go adds back from the neighbors of a node.
use magnitude.Common.{
  ℕ, zero, suc, ◌≡◌, refl, sym, ap, ◌∙◌, true, false, some, List, [], ◌∷◌, ◌++◌, length, set,
  get_elem?-set_self, ltb, arith, Bool-cases, inl, inr,
}
use magnitude.Hnsw.{◌>>=◌, All, Distances, Node, HnswIndex, node_vector, friends_at, set_friends}
use magnitude.Hnsw.Link.{max_conn, prune_connections, link_back, link_all}
use magnitude.Hnsw.Valid.{layers_of-lt, HasLayer, IsValid, All-append, node_vector_total}
use magnitude.Hnsw.Link.Neighbors.{prune_connections_total}
use magnitude.Hnsw.Link.Friends.{
  friends_in_stored, friends_at_lem, Relinked, Relinked-refl, Relinked-trans, with_friends,
  with_nodes, set_friends-stored, layer_stored, All-moved, set_friends_total,
}

set_twice : {A : Type 0} (xs : List A) (i : ℕ) (a b : A) → set (set xs i a) i b ≡ set xs i b
set_twice [] i a b = refl
set_twice (x ∷ xs) zero a b = refl
set_twice (x ∷ xs) (suc i) a b = ap (λ ys. x ∷ ys) (set_twice xs i a b)

-- The node after a write to one of its layers.
abbrev written : Node → ℕ → List ℕ → Node
written node layer fs = record node { friends = set node.friends layer fs }

with_friends_twice :
    (nodes : List Node) (i layer : ℕ) (fs gs : List ℕ) (node : Node)
    → with_friends (with_friends nodes i layer fs node) i layer gs (written node layer fs)
      ≡ with_friends nodes i layer gs node
with_friends_twice nodes i layer fs gs node =
    set_twice nodes i (written node layer fs) (written (written node layer fs) layer gs)
    ∙ ap (λ friends. set nodes i (record node { friends = friends }))
        (set_twice node.friends layer fs gs)

node_vector-with_nodes :
    {F : Type 0} (h : HnswIndex F) (nodes : List Node) (i : ℕ)
    → node_vector (with_nodes h nodes) i ≡ node_vector h i
unfolding node_vector
node_vector-with_nodes h nodes i = refl

module _ {F : Type 0} (ds : Distances F) where
  module _ (node_idx layer most : ℕ) (h : HnswIndex F) (n : ℕ) (old : List ℕ)
      (read : friends_at h n layer ≡ some old) where
    link_back-fits :
        (linked : HnswIndex F)
        → set_friends h n layer (old ++ node_idx ∷ []) ≡ some linked
        → ltb most (length (old ++ node_idx ∷ [])) ≡ false
        → link_back ds node_idx layer most h n ≡ some linked
    unfolding link_back
    link_back-fits linked stored fits = rw (link_back, read, ◌>>=◌, stored, fits) refl

    link_back-pruned :
        (linked final : HnswIndex F) (vec : List F) (pruned : List ℕ)
        → set_friends h n layer (old ++ node_idx ∷ []) ≡ some linked
        → ltb most (length (old ++ node_idx ∷ [])) ≡ true
        → node_vector linked n ≡ some vec
        → prune_connections ds linked vec (old ++ node_idx ∷ []) most ≡ some pruned
        → set_friends linked n layer pruned ≡ some final
        → link_back ds node_idx layer most h n ≡ some final
    unfolding link_back
    link_back-pruned linked final vec pruned stored over found cut last =
        rw (link_back, read, ◌>>=◌, stored, over, found, cut) last

  module _ (h : HnswIndex F) (v : IsValid h) (node_idx layer n : ℕ)
      (on_new : HasLayer h layer node_idx) (on : HasLayer h layer n) where
    reads :
        (nodes : List Node) (i : ℕ)
        → HasLayer h layer i
        → (vec : List F) × (node_vector (with_nodes h nodes) i ≡ some vec)
    reads nodes i on_i =
        let (vec, found, _) = node_vector_total h v i (layers_of-lt h.nodes layer i on_i) in
        (vec, node_vector-with_nodes h nodes i ∙ found)

    link_back_total :
        (nodes : List Node) × (link_back ds node_idx layer (max_conn h layer) h n
          ≡ some (with_nodes h nodes))
        × Relinked h.nodes nodes
        × IsValid (with_nodes h nodes)
    link_back_total =
        let (node, old, found, stored, long) = layer_stored h.nodes n layer on in
        let read =
          friends_at_lem h n layer ∙ friends_in_stored h.nodes n layer node old found stored in
        let linked = v.links n layer old read in
        let fs = old ++ node_idx ∷ [] in
        let ok = All-append (HasLayer h layer) old (node_idx ∷ []) linked.1 (on_new, tt) in
        elim (Bool-cases (ltb (max_conn h layer) (length fs))) [
          | inr fits ↦
              (let (nodes, at, r, v') =
                  set_friends_total h v n layer fs on (ground (arith, fits)) ok in
                (
                  nodes,
                  link_back-fits node_idx layer (max_conn h layer) h n old read (with_nodes h nodes)
                      at fits,
                  r,
                  v',
                ))
          | inl over ↦
              (let nodes1 = with_friends h.nodes n layer fs node in
                let (vec, found_vec, _) =
                  node_vector_total h v n (layers_of-lt h.nodes layer n on) in
                let (pruned, cut, s) =
                  prune_connections_total ds (with_nodes h nodes1) (HasLayer h layer) (reads nodes1)
                    vec fs (max_conn h layer) ok in
                let (nodes, at, r, v') = set_friends_total h v n layer pruned on s.few s.all in
                (
                  nodes,
                  link_back-pruned node_idx layer (max_conn h layer) h n old read
                        (with_nodes h nodes1)
                        (with_nodes h (with_friends nodes1 n layer pruned (written node layer fs)))
                        vec pruned (set_friends-stored h n layer fs old node found stored) over
                        (node_vector-with_nodes h nodes1 n ∙ found_vec) cut
                        (set_friends-stored (with_nodes h nodes1) n layer pruned fs
                          (written node layer fs)
                          (get_elem?-set_self h.nodes n (written node layer fs)
                            (layers_of-lt h.nodes layer n on))
                          (get_elem?-set_self node.friends layer fs long))
                      ∙ ap (λ ns. some (with_nodes h ns))
                          (with_friends_twice h.nodes n layer fs pruned node)
                      ∙ sym (set_friends-stored h n layer pruned old node found stored)
                      ∙ at,
                  r,
                  v',
                ))
        ]

  link_all-step :
      (node_idx layer most n : ℕ) (ns : List ℕ) (h next : HnswIndex F)
      → link_back ds node_idx layer most h n ≡ some next
      → link_all ds node_idx layer most h (n ∷ ns) ≡ link_all ds node_idx layer most next ns
  unfolding link_all
  link_all-step node_idx layer most n ns h next at = rw (link_all, at, ◌>>=◌) refl

  -- The edges back from neighbors that have the layer.
  pub link_all_total :
      (h : HnswIndex F) (node_idx layer : ℕ) (ns : List ℕ)
      → IsValid h
      → HasLayer h layer node_idx
      → All (HasLayer h layer) ns
      → (nodes : List Node) × (link_all ds node_idx layer (max_conn h layer) h ns
          ≡ some (with_nodes h nodes))
        × Relinked h.nodes nodes
        × IsValid (with_nodes h nodes)
  link_all_total h node_idx layer [] v on_new ok =
      (h.nodes, unfold link_all in refl, Relinked-refl h.nodes, v)
  link_all_total h node_idx layer (n ∷ ns) v on_new ok =
      let (nodes, at, r, v') = link_back_total h v node_idx layer n on_new ok.0 in
      let (nodes', at', r', v'') =
        link_all_total (with_nodes h nodes) node_idx layer ns v' (rw (r.layers node_idx) on_new)
          (All-moved h.nodes nodes layer r ns ok.1) in
      (
        nodes',
        link_all-step node_idx layer (max_conn h layer) n ns h (with_nodes h nodes) at ∙ at',
        Relinked-trans h.nodes nodes nodes' r r',
        v'',
      )
