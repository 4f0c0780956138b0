-- ===== src/Hnsw/Link/Growth.antt =====
-- Insertions of internal/index/hnsw/hnsw.go leave the nodes and rows where they are.
use magnitude.Common.{
  ℕ, ◌+◌, ◌≤◌, ◌<◌, ◌≡◌, refl, sym, ap, ◌∙◌, some, List, [], ◌∷◌, length, length-append,
  get_elem?_total, nat_keyed, arith,
}
use magnitude.Hnsw.{HnswIndex, node_vector}
use magnitude.Hnsw.Valid.{IsValid, node_vector_at}
use magnitude.Hnsw.Link.Friends.{id_at}
use magnitude.Hnsw.Link.Appends.{
  new_node, get_elem?-append_old, id_at-append_old, id_at-append_last,
}
use magnitude.Hnsw.Link.Stored.{IsStored}
use magnitude.Hnsw.Vectors.{slice-append_old}

-- An index that grew out of another: nodes and rows of the old one are where they were.
pub record Extends {F : Type 0} (h next : HnswIndex F) : Type 0 where
  pub dim : next.dim ≡ h.dim
  pub rows : (i : ℕ) → i < length h.vector_offsets → node_vector next i ≡ node_vector h i
  pub ids : (i : ℕ) → i < length h.nodes → id_at next.nodes i ≡ id_at h.nodes i
  pub offsets : length h.vector_offsets ≤ length next.vector_offsets
  pub nodes : length h.nodes ≤ length next.nodes

pub Extends-refl : {F : Type 0} (h : HnswIndex F) → Extends h h
Extends-refl h = record {
  dim = refl;
  rows = λ _ _. refl;
  ids = λ _ _. refl;
  offsets = omega arith;
  nodes = omega arith;
}

pub Extends-trans : {F : Type 0} (a b c : HnswIndex F) → Extends a b → Extends b c → Extends a c
Extends-trans a b c p q = record {
  dim = q.dim ∙ p.dim;
  rows = λ i old. q.rows i (omega (arith, p.offsets)) ∙ p.rows i old;
  ids = λ i old. q.ids i (omega (arith, p.nodes)) ∙ p.ids i old;
  offsets = omega (arith, p.offsets, q.offsets);
  nodes = omega (arith, p.nodes, q.nodes);
}

module _ {F : Type 0} (h : HnswIndex F) (v : IsValid h) (id : ℕ) (vector : List F)
    (next : HnswIndex F) (s : IsStored h id vector next) where
  stored_row : (i : ℕ) → i < length h.vector_offsets → node_vector next i ≡ node_vector h i
  stored_row i old =
      let (offset, at) = get_elem?_total h.vector_offsets i old in
      let room = v.vectors i offset at in
      node_vector_at next i offset
        (rw s.offsets
          (get_elem?-append_old h.vector_offsets (length h.vector_slab ∷ []) i old ∙ at))
        (rw (s.dim, s.slab) (omega (arith, room, length-append h.vector_slab vector)))
      ∙ rw (s.dim, s.slab) (ap some (slice-append_old offset h.dim h.vector_slab vector room))
      ∙ sym (node_vector_at h i offset at room)

  pub stored-Extends : Extends h next
  stored-Extends = record {
    dim = s.dim;
    rows = stored_row;
    ids = λ i old. s.nodes.ids i ∙ id_at-append_old h.nodes (new_node id s.level) i old;
    offsets =
        omega
          (arith, ap length s.offsets, length-append h.vector_offsets (length h.vector_slab ∷ []));
    nodes = omega (arith, s.nodes.count, length-append h.nodes (new_node id s.level ∷ []));
  }

  pub stored_id : id_at next.nodes (length h.nodes) ≡ some id
  stored_id = s.nodes.ids (length h.nodes) ∙ id_at-append_last h.nodes (new_node id s.level)

  pub stored_count : length next.nodes ≡ length h.nodes + 1
  stored_count = s.nodes.count ∙ length-append h.nodes (new_node id s.level ∷ [])
