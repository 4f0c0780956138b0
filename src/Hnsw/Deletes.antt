-- ===== src/Hnsw/Deletes.antt =====
-- `Delete` of internal/index/hnsw/hnsw.go, which only marks a node.
use magnitude.Common.{
  ℕ, ◌<◌, ◌≡◌, ◌⊎◌, refl, sym, subst, ◌∙◌, true, false, none, some, ◌∷◌, length, ◌==◌, nat_keyed,
  nat_beq_iff, same_refl, if◌then◌else◌, arith, Bool-cases, Option-cases, inl, inr,
}
use magnitude.Common.Keys.{has}
use magnitude.Common.Dict
use magnitude.Common.Result.{ok, err}
use magnitude.Hnsw.{vector_not_found, HnswIndex, friends_at, node_vector, is_deleted, delete}
use magnitude.Hnsw.Link.Friends.{id_at, some_inj}
use magnitude.Hnsw.Link.Stored.{node_index-deleted, node_index-live}
use magnitude.Hnsw.Vectors.{IsIndexed, vector_of, vector_of-none, vector_of-some, node_index-absent}
use magnitude.Hnsw.Puts.{IsWellFormed}

module _ {F : Type 0} where
  -- The index with one more tombstone.
  abbrev pub with_tombstone : HnswIndex F → ℕ → HnswIndex F
  with_tombstone h i = record h { deleted = if has i h.deleted then h.deleted else i ∷ h.deleted }

  module _ (h : HnswIndex F) (i : ℕ) where
    is_deleted-with_tombstone :
        (j : ℕ) → is_deleted (with_tombstone h i) j ≡ (if i == j then true else is_deleted h j)
    unfolding has
    is_deleted-with_tombstone j = elim (Bool-cases (has i h.deleted)) [
      | inr new ↦ rw new (ground (arith, nat_beq_iff i j))
      | inl known ↦ rw known (elim (Bool-cases (i == j)) [
        | inl same ↦ rw same (subst (λ k. has k h.deleted ≡ true) ((nat_beq_iff i j).0 same) known)
        | inr other ↦ rw other refl
      ])
    ]

    tombstone_keeps : (j : ℕ) → is_deleted (with_tombstone h i) j ≡ false → is_deleted h j ≡ false
    tombstone_keeps j stays = ground (arith, is_deleted-with_tombstone j)

    pub with_tombstone-IsWellFormed :
        IsWellFormed h → i < length h.nodes → IsWellFormed (with_tombstone h i)
    unfolding friends_at
    with_tombstone-IsWellFormed w old = record {
      valid = record {
        room = w.valid.room;
        offsets = w.valid.offsets;
        vectors = w.valid.vectors;
        links = w.valid.links;
        entry = w.valid.entry;
      };
      indexed = record {
        counts = w.indexed.counts;
        known = w.indexed.known;
        live = λ j id named stays. w.indexed.live j id named (tombstone_keeps j stays);
        gone = λ j gone. elim (Bool-cases (i == j)) [
          | inl same ↦ subst (λ k. k < length h.nodes) ((nat_beq_iff i j).0 same) old
          | inr other ↦ w.indexed.gone j (ground (arith, is_deleted-with_tombstone j, gone, other))
        ];
      };
      pending = w.pending;
    }

    same_vector : (j : ℕ) → node_vector (with_tombstone h i) j ≡ node_vector h j
    unfolding node_vector
    same_vector j = refl

    module _ (x : IsIndexed h) (id : ℕ) (found : Dict.lookup id h.id_to_node ≡ some i) where
      -- Another id has another node.
      other_node :
          (at j : ℕ) → (id == at) ≡ false → Dict.lookup at h.id_to_node ≡ some j → (i == j) ≡ false
      other_node at j other at_j = elim (Bool-cases (i == j)) [
        | inr apart ↦ apart
        | inl same ↦
            (let named =
                subst (λ k. id_at h.nodes k ≡ some id) ((nat_beq_iff i j).0 same)
                  (x.known id i found).1 in
              let clash = some_inj (sym named ∙ (x.known at j at_j).1) in
              absurd (ground (arith, other, (nat_beq_iff id at).1 clash)))
      ]

      vector_of-with_tombstone :
          (at : ℕ) → vector_of (with_tombstone h i) at ≡ (if id == at then none else vector_of h at)
      vector_of-with_tombstone at = elim (Bool-cases (id == at)) [
        | inl same ↦ rw same (
            vector_of-none (with_tombstone h i) at (
              node_index-deleted (with_tombstone h i) at i
                (subst (λ k. Dict.lookup k h.id_to_node ≡ some i) ((nat_beq_iff id at).0 same)
                  found)
                (is_deleted-with_tombstone i ∙ rw (same_refl i) refl)))
        | inr other ↦ rw other (elim (Option-cases (Dict.lookup at h.id_to_node)) [
          | inl absent ↦
              vector_of-none (with_tombstone h i) at
                (node_index-absent (with_tombstone h i) at absent)
              ∙ sym (vector_of-none h at (node_index-absent h at absent))
          | inr (j, at_j) ↦
              (let apart = other_node at j other at_j in
                let marks = is_deleted-with_tombstone j ∙ rw apart refl in
                elim (Bool-cases (is_deleted h j)) [
                  | inl gone ↦
                      vector_of-none (with_tombstone h i) at
                        (node_index-deleted (with_tombstone h i) at j at_j (marks ∙ gone))
                      ∙ sym (vector_of-none h at (node_index-deleted h at j at_j gone))
                  | inr stays ↦
                      vector_of-some (with_tombstone h i) at j
                        (node_index-live (with_tombstone h i) at j at_j (marks ∙ stays))
                      ∙ same_vector j
                      ∙ sym (vector_of-some h at j (node_index-live h at j at_j stays))
                ])
        ])
      ]

  delete-marks :
      (h : HnswIndex F) (id i : ℕ)
      → Dict.lookup id h.id_to_node ≡ some i
      → delete h id ≡ ok (with_tombstone h i)
  unfolding delete
  delete-marks h id i found = rw (delete, found) refl

  delete-absent :
      (h : HnswIndex F) (id : ℕ)
      → Dict.lookup id h.id_to_node ≡ none
      → delete h id ≡ err vector_not_found
  unfolding delete
  delete-absent h id absent = rw (delete, absent) refl

  -- On a well-formed index, `Delete` refuses an id that has no entry in the id map, whatever is pending.
  -- An id with an entry is accepted: the index stays well formed, the id has no vector in the graph, and
  -- every other id has the one that it had.
  pub delete_outcome :
      (h : HnswIndex F) (id : ℕ)
      → IsWellFormed h
      → ((Dict.lookup id h.id_to_node ≡ none)
          × (vector_of h id ≡ none)
          × (delete h id ≡ err vector_not_found))
        ⊎ ((i : ℕ) × (Dict.lookup id h.id_to_node ≡ some i)
            × (next : HnswIndex F) × (delete h id ≡ ok next)
            × IsWellFormed next
            × ((at : ℕ) → vector_of next at ≡ (if id == at then none else vector_of h at)))
  delete_outcome h id w = elim (Option-cases (Dict.lookup id h.id_to_node)) [
    | inl absent ↦
        inl (absent, vector_of-none h id (node_index-absent h id absent), delete-absent h id absent)
    | inr (i, found) ↦ inr (
      i,
      found,
      with_tombstone h i,
      delete-marks h id i found,
      with_tombstone-IsWellFormed h i w (w.indexed.known id i found).0,
      vector_of-with_tombstone h i w.indexed id found,
    )
  ]
