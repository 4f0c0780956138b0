-- ===== src/Hnsw/Vectors.antt =====
-- The vectors of internal/index/hnsw/hnsw.go by id.
use magnitude.Common.{
  ℕ, zero, suc, ◌+◌, ◌≤◌, ◌<◌, ◌≡◌, refl, sym, ap, subst, ◌∙◌, true, false, Option, none, some,
  List, [], ◌∷◌, ◌++◌, length, length-append, get_elem?, get_elem?_total, get_elem?-lt, slice,
  take_all, ltb, ◌==◌, nat_keyed, nat_beq_iff, if◌then◌else◌, arith, Bool-cases, Option-cases, inl,
  inr,
}
use magnitude.Common.Keys.{has}
use magnitude.Common.Dict
use magnitude.Common.Dict.{Dict}
use magnitude.Hnsw.{HnswIndex, Node, node_vector, is_deleted, node_index}
use magnitude.Hnsw.Valid.{IsValid, node_vector_at}
use magnitude.Hnsw.Link.Friends.{id_at, some_inj}
use magnitude.Hnsw.Link.Appends.{
  new_node, get_elem?-append_old, get_elem?-append_last, id_at-append_old, id_at-append_last,
}
use magnitude.Hnsw.Link.Stored.{IsStored, node_index-deleted, node_index-live}

-- The map from ids to nodes and the tombstones fit the nodes, and every node has one offset.
pub record IsIndexed {F : Type 0} (h : HnswIndex F) : Type 0 where
  pub counts : length h.vector_offsets ≡ length h.nodes
  pub known :
      (id i : ℕ)
      → Dict.lookup id h.id_to_node ≡ some i
      → (i < length h.nodes) × (id_at h.nodes i ≡ some id)
  pub live :
      (i id : ℕ)
      → id_at h.nodes i ≡ some id
      → is_deleted h i ≡ false
      → Dict.lookup id h.id_to_node ≡ some i
  pub gone : (i : ℕ) → is_deleted h i ≡ true → i < length h.nodes

-- The vector of a live id.
unfoldable pub vector_of : {F : Type 0} → HnswIndex F → ℕ → Option (List F)
vector_of h id = elim (node_index h id) [ none ↦ none | some i ↦ node_vector h i ]

pub slice-append_old :
    {F : Type 0} (i n : ℕ) (xs ys : List F)
    → i + n ≤ length xs
    → slice i n (xs ++ ys) ≡ slice i n xs
slice-append_old zero zero xs ys h = refl
slice-append_old zero (suc n) [] ys h = absurd (omega arith)
slice-append_old zero (suc n) (x ∷ xs) ys h =
    ap (λ zs. x ∷ zs) (slice-append_old zero n xs ys (omega arith))
slice-append_old (suc i) n [] ys h = absurd (omega arith)
slice-append_old (suc i) n (x ∷ xs) ys h = slice-append_old i n xs ys (omega arith)

slice-append_new : {F : Type 0} (xs ys : List F) → slice (length xs) (length ys) (xs ++ ys) ≡ ys
slice-append_new [] ys = take_all (length ys) ys (omega arith)
slice-append_new (x ∷ xs) ys = slice-append_new xs ys

id_at-lt : (nodes : List Node) (i id : ℕ) → id_at nodes i ≡ some id → i < length nodes
unfolding id_at
id_at-lt nodes i id at = elim (Option-cases (get_elem? nodes i)) [
  | inl absent ↦ absurd (ground (arith, absent, at))
  | inr (node, found) ↦ get_elem?-lt nodes i node found
]

pub vector_of-none :
    {F : Type 0} (h : HnswIndex F) (id : ℕ) → node_index h id ≡ none → vector_of h id ≡ none
unfolding vector_of
vector_of-none h id at = rw (vector_of, at) refl

pub vector_of-some :
    {F : Type 0} (h : HnswIndex F) (id i : ℕ)
    → node_index h id ≡ some i
    → vector_of h id ≡ node_vector h i
unfolding vector_of
vector_of-some h id i at = rw (vector_of, at) refl

pub node_index-absent :
    {F : Type 0} (h : HnswIndex F) (id : ℕ)
    → Dict.lookup id h.id_to_node ≡ none
    → node_index h id ≡ none
unfolding node_index
node_index-absent h id at = rw (node_index, at) refl

-- A live id has a node.
pub node_index-lt :
    {F : Type 0} (h : HnswIndex F) (x : IsIndexed h) (at i : ℕ)
    → node_index h at ≡ some i
    → i < length h.nodes
unfolding node_index
node_index-lt h x at i found = elim (Option-cases (Dict.lookup at h.id_to_node)) [
  | inl absent ↦ absurd (ground (arith, absent, found))
  | inr (j, known) ↦ ground (arith, known, found, (x.known at j known).0)
]

module _ {F : Type 0} (h : HnswIndex F) (v : IsValid h) (x : IsIndexed h) (id : ℕ) (vector : List F)
    (fits : length vector ≡ h.dim) (fresh : node_index h id ≡ none) (next : HnswIndex F)
    (s : IsStored h id vector next) where
  -- The vectors of the old nodes stay.
  old_vector : (i : ℕ) → i < length h.nodes → node_vector next i ≡ node_vector h i
  old_vector i old =
      let (offset, at) = get_elem?_total h.vector_offsets i (omega (arith, x.counts)) in
      let room = v.vectors i offset at in
      node_vector_at next i offset
        (rw s.offsets (
          get_elem?-append_old h.vector_offsets (length h.vector_slab ∷ []) i
            (omega (arith, x.counts))
          ∙ at))
        (rw (s.dim, s.slab) (omega (arith, room, length-append h.vector_slab vector)))
      ∙ rw (s.dim, s.slab) (ap some (slice-append_old offset h.dim h.vector_slab vector room))
      ∙ sym (node_vector_at h i offset at room)

  -- The new node has the new vector.
  new_vector : node_vector next (length h.nodes) ≡ some vector
  new_vector =
      node_vector_at next (length h.nodes) (length h.vector_slab)
        (rw (s.offsets, sym x.counts)
          (get_elem?-append_last h.vector_offsets (length h.vector_slab)))
        (rw (s.dim, s.slab) (omega (arith, fits, length-append h.vector_slab vector)))
      ∙ rw (s.dim, s.slab, sym fits) (ap some (slice-append_new h.vector_slab vector))

  new_live : is_deleted next (length h.nodes) ≡ false
  new_live = elim (Bool-cases (is_deleted h (length h.nodes))) [
    | inl gone ↦ absurd (omega (arith, x.gone (length h.nodes) gone))
    | inr stays ↦ rw s.deleted stays
  ]

  same_tombstone : (i : ℕ) → is_deleted next i ≡ is_deleted h i
  same_tombstone i = ap (has i) s.deleted

  old_lookup :
      (at : ℕ) → (id == at) ≡ false → Dict.lookup at next.id_to_node ≡ Dict.lookup at h.id_to_node
  old_lookup at other = s.lookups at ∙ rw other refl

  new_lookup : (at : ℕ) → (id == at) ≡ true → Dict.lookup at next.id_to_node ≡ some (length h.nodes)
  new_lookup at same = s.lookups at ∙ rw same refl

  old_node_index : (at : ℕ) → (id == at) ≡ false → node_index next at ≡ node_index h at
  old_node_index at other = elim (Option-cases (Dict.lookup at h.id_to_node)) [
    | inl absent ↦
        node_index-absent next at (old_lookup at other ∙ absent)
        ∙ sym (node_index-absent h at absent)
    | inr (i, found) ↦ elim (Bool-cases (is_deleted h i)) [
      | inl gone ↦
          node_index-deleted next at i (old_lookup at other ∙ found) (same_tombstone i ∙ gone)
          ∙ sym (node_index-deleted h at i found gone)
      | inr stays ↦
          node_index-live next at i (old_lookup at other ∙ found) (same_tombstone i ∙ stays)
          ∙ sym (node_index-live h at i found stays)
    ]
  ]

  -- The vectors by id after the insertion.
  pub stored_vectors :
      (at : ℕ) → vector_of next at ≡ (if id == at then some vector else vector_of h at)
  stored_vectors at = elim (Bool-cases (id == at)) [
    | inl same ↦ rw same (
        vector_of-some next at (length h.nodes)
          (node_index-live next at (length h.nodes) (new_lookup at same) new_live)
        ∙ new_vector)
    | inr other ↦ rw other (elim (Option-cases (node_index h at)) [
      | inl absent ↦
          vector_of-none next at (old_node_index at other ∙ absent)
          ∙ sym (vector_of-none h at absent)
      | inr (i, found) ↦
          vector_of-some next at i (old_node_index at other ∙ found)
          ∙ old_vector i (node_index-lt h x at i found)
          ∙ sym (vector_of-some h at i found)
    ])
  ]

  id_at_old : (i : ℕ) → i < length h.nodes → id_at next.nodes i ≡ id_at h.nodes i
  id_at_old i old = s.nodes.ids i ∙ id_at-append_old h.nodes (new_node id s.level) i old

  id_at_new : id_at next.nodes (length h.nodes) ≡ some id
  id_at_new = s.nodes.ids (length h.nodes) ∙ id_at-append_last h.nodes (new_node id s.level)

  count : length next.nodes ≡ length h.nodes + 1
  count = s.nodes.count ∙ length-append h.nodes (new_node id s.level ∷ [])

  stored_known :
      (at i : ℕ)
      → Dict.lookup at next.id_to_node ≡ some i
      → (i < length next.nodes) × (id_at next.nodes i ≡ some at)
  stored_known at i found = elim (Bool-cases (id == at)) [
    | inl same ↦
        (let last = some_inj (sym (new_lookup at same) ∙ found) in
          (
            omega (arith, last, count),
            subst (λ k. id_at next.nodes k ≡ some at) last
                (id_at_new ∙ ap some ((nat_beq_iff id at).0 same)),
          ))
    | inr other ↦
        (let (old, named) = x.known at i (sym (old_lookup at other) ∙ found) in
          (omega (arith, old, count), id_at_old i old ∙ named))
  ]

  -- A node with the id of the new one is a tombstone.
  old_other :
      (i at : ℕ)
      → i < length h.nodes
      → id_at h.nodes i ≡ some at
      → is_deleted h i ≡ false
      → (id == at) ≡ false
  old_other i at old named stays = elim (Bool-cases (id == at)) [
    | inr other ↦ other
    | inl same ↦ absurd (
        ground (
          arith,
          fresh,
          subst (λ k. node_index h k ≡ some i) (sym ((nat_beq_iff id at).0 same))
              (node_index-live h at i (x.live i at named stays) stays),
        ))
  ]

  stored_live :
      (i at : ℕ)
      → id_at next.nodes i ≡ some at
      → is_deleted next i ≡ false
      → Dict.lookup at next.id_to_node ≡ some i
  stored_live i at named stays = elim (Bool-cases (ltb i (length h.nodes))) [
    | inl old ↦
        (let was = sym (id_at_old i (ground (arith, old))) ∙ named in
          let stayed = sym (same_tombstone i) ∙ stays in
          old_lookup at (old_other i at (ground (arith, old)) was stayed) ∙ x.live i at was stayed)
    | inr new ↦
        (let last : length h.nodes ≡ i =
            ground (arith, new, id_at-lt next.nodes i at named, count) in
          let same =
            some_inj (sym id_at_new ∙ subst (λ k. id_at next.nodes k ≡ some at) (sym last) named) in
          new_lookup at ((nat_beq_iff id at).1 same) ∙ ap some last)
  ]

  -- The new index is indexed.
  pub stored-IsIndexed : IsIndexed next
  stored-IsIndexed = record {
    counts = omega (
      arith,
      ap length s.offsets,
      length-append h.vector_offsets (length h.vector_slab ∷ []),
      x.counts,
      count,
    );
    known = stored_known;
    live = stored_live;
    gone = λ i gone. omega (arith, x.gone i (sym (same_tombstone i) ∙ gone), count);
  }
