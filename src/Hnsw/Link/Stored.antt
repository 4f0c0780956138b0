-- ===== src/Hnsw/Link/Stored.antt =====
-- What `insertLocked` of internal/index/hnsw/hnsw.go does to an index: whether it stores the vector,
-- and what else it changes.
use magnitude.Common.{
  ℕ, ◌≡◌, ◌⊎◌, refl, ◌∙◌, true, false, Option, none, some, List, [], ◌∷◌, ◌++◌, length, ◌==◌,
  nat_keyed, if◌then◌else◌, arith, Bool-cases, Option-cases, inl, inr,
}
use magnitude.Common.Dict
use magnitude.Common.Dict.{Dict}
use magnitude.Common.Result.{ok, err}
use magnitude.Hnsw.{
  ◌>>=◌, duplicate_id, Distances, Candidate, Heap, IsHeap, Node, Top, HnswIndex, friends_at,
  is_deleted, node_index,
}
use magnitude.Hnsw.Tracker.{Tracker}
use magnitude.Hnsw.Link.{append_node, add_new, insert_locked}
use magnitude.Hnsw.Valid.{IsValid}
use magnitude.Hnsw.Walk.Ends.{IsOrder}
use magnitude.Hnsw.Link.Friends.{Relinked}
use magnitude.Hnsw.Link.Appends.{new_node}
use magnitude.Hnsw.Link.Inserts.{linked_index, add_new_total}

-- The index after a vector was stored under an id: one node more, with the vector behind the slab.
pub record IsStored {F : Type 0} (h : HnswIndex F) (id : ℕ) (vector : List F) (next : HnswIndex F)
    : Type 0 where
  pub level : ℕ
  pub nodes : Relinked (h.nodes ++ new_node id level ∷ []) next.nodes
  pub dim : next.dim ≡ h.dim
  pub slab : next.vector_slab ≡ h.vector_slab ++ vector
  pub offsets : next.vector_offsets ≡ h.vector_offsets ++ length h.vector_slab ∷ []
  pub deleted : next.deleted ≡ h.deleted
  pub dirty : next.dirty ≡ h.dirty
  pub lookups :
      (at : ℕ)
      → Dict.lookup at next.id_to_node
        ≡ (if id == at then some (length h.nodes) else Dict.lookup at h.id_to_node)

abbrev without : {F : Type 0} → HnswIndex F → ℕ → HnswIndex F
without h id = record h { id_to_node = Dict.delete id h.id_to_node }

without-IsValid : {F : Type 0} (h : HnswIndex F) (id : ℕ) → IsValid h → IsValid (without h id)
unfolding friends_at
without-IsValid h id v = record {
  room = v.room;
  offsets = v.offsets;
  vectors = v.vectors;
  links = v.links;
  entry = v.entry;
}

node_index-absent :
    {F : Type 0} (h : HnswIndex F) (id : ℕ)
    → Dict.lookup id h.id_to_node ≡ none
    → node_index h id ≡ none
unfolding node_index
node_index-absent h id at = rw (node_index, at) refl

pub node_index-deleted :
    {F : Type 0} (h : HnswIndex F) (id i : ℕ)
    → Dict.lookup id h.id_to_node ≡ some i
    → is_deleted h i ≡ true
    → node_index h id ≡ none
unfolding node_index
node_index-deleted h id i at gone = rw (node_index, at, gone) refl

pub node_index-live :
    {F : Type 0} (h : HnswIndex F) (id i : ℕ)
    → Dict.lookup id h.id_to_node ≡ some i
    → is_deleted h i ≡ false
    → node_index h id ≡ some i
unfolding node_index
node_index-live h id i at live = rw (node_index, at, live) refl

module _ {F : Type 0} (ds : Distances F) (order : IsOrder ds.less)
    (nearest furthest : Heap (Candidate F)) (is_near : IsHeap nearest)
    (is_far : IsHeap furthest) where
  -- The two outcomes of `insertLocked`.
  abbrev pub Refused : HnswIndex F → ℕ → List F → ℕ → Tracker → Type 0
  Refused h id vector level vt =
      (i : ℕ) × (node_index h id ≡ some i)
      × (insert_locked ds nearest furthest h id vector level vt ≡ some (err duplicate_id))

  abbrev pub Accepted : HnswIndex F → ℕ → List F → ℕ → Tracker → Type 0
  Accepted h id vector level vt =
      (node_index h id ≡ none)
      × (next : HnswIndex F) × (used : Tracker) × (insert_locked ds nearest furthest h id vector
            level vt
          ≡ some (ok (next, used)))
      × IsValid next
      × IsStored h id vector next

  module _ (h : HnswIndex F) (id : ℕ) (vector : List F) (level : ℕ) (vt : Tracker) where
    insert_locked-fresh :
        (added : HnswIndex F × Tracker)
        → Dict.lookup id h.id_to_node ≡ none
        → add_new ds nearest furthest h id vector level vt ≡ some added
        → insert_locked ds nearest furthest h id vector level vt ≡ some (ok added)
    unfolding insert_locked
    insert_locked-fresh added at stored = rw (insert_locked, at, stored, ◌>>=◌) refl

    insert_locked-again :
        (added : HnswIndex F × Tracker) (i : ℕ)
        → Dict.lookup id h.id_to_node ≡ some i
        → is_deleted h i ≡ true
        → add_new ds nearest furthest (without h id) id vector level vt ≡ some added
        → insert_locked ds nearest furthest h id vector level vt ≡ some (ok added)
    unfolding insert_locked
    insert_locked-again added i at gone stored = rw (insert_locked, at, gone, stored, ◌>>=◌) refl

    insert_locked-duplicate :
        (i : ℕ)
        → Dict.lookup id h.id_to_node ≡ some i
        → is_deleted h i ≡ false
        → insert_locked ds nearest furthest h id vector level vt ≡ some (err duplicate_id)
    unfolding insert_locked
    insert_locked-duplicate i at live = rw (insert_locked, at, live) refl

    linked-IsStored :
        (nodes : List Node) (top : Option Top)
        → Relinked (h.nodes ++ new_node id level ∷ []) nodes
        → IsStored h id vector (linked_index (append_node h id vector level) nodes top)
    unfolding append_node
    linked-IsStored nodes top r = record {
      level = level;
      nodes = r;
      dim = refl;
      slab = refl;
      offsets = refl;
      deleted = refl;
      dirty = refl;
      lookups = λ at. Dict.lookup-insert id at (length h.nodes) h.id_to_node;
    }

    again-IsStored :
        (nodes : List Node) (top : Option Top)
        → Relinked (h.nodes ++ new_node id level ∷ []) nodes
        → IsStored h id vector (linked_index (append_node (without h id) id vector level) nodes top)
    unfolding append_node
    again-IsStored nodes top r = record {
      level = level;
      nodes = r;
      dim = refl;
      slab = refl;
      offsets = refl;
      deleted = refl;
      dirty = refl;
      lookups = λ at.
          Dict.lookup-insert id at (length h.nodes) (Dict.delete id h.id_to_node)
          ∙ ground (arith, Dict.lookup-delete id at h.id_to_node);
    }

  -- For any level drawn and any tracker of the pool, an insertion on a well-formed index returns: it
  -- refuses an id that is live, and else stores the vector, and the index is well formed again.
  pub insert_locked_outcome :
      (h : HnswIndex F) (id : ℕ) (vector : List F) (level : ℕ) (vt : Tracker)
      → IsValid h
      → length vector ≡ h.dim
      → Refused h id vector level vt ⊎ Accepted h id vector level vt
  insert_locked_outcome h id vector level vt v fits =
      elim (Option-cases (Dict.lookup id h.id_to_node)) [
        | inl fresh ↦
            (let (nodes, top, used, at, r, v') =
                add_new_total ds order nearest furthest is_near is_far h v id vector level vt
                  fits in
              inr (
                node_index-absent h id fresh,
                linked_index (append_node h id vector level) nodes top,
                used,
                insert_locked-fresh h id vector level vt
                    (linked_index (append_node h id vector level) nodes top, used) fresh at,
                v',
                linked-IsStored h id vector level vt nodes top r,
              ))
        | inr (i, known) ↦ elim (Bool-cases (is_deleted h i)) [
          | inl gone ↦
              (let (nodes, top, used, at, r, v') =
                  add_new_total ds order nearest furthest is_near is_far (without h id)
                    (without-IsValid h id v) id vector level vt fits in
                inr (
                  node_index-deleted h id i known gone,
                  linked_index (append_node (without h id) id vector level) nodes top,
                  used,
                  insert_locked-again h id vector level vt
                      (linked_index (append_node (without h id) id vector level) nodes top, used) i
                      known gone at,
                  v',
                  again-IsStored h id vector level vt nodes top r,
                ))
          | inr live ↦ inl (
            i,
            node_index-live h id i known live,
            insert_locked-duplicate h id vector level vt i known live,
          )
        ]
      ]
