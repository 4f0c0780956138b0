-- ===== src/Flat/Insert.antt =====
-- `Insert` of flat.go against the map that a client sees.
use native.Mathlib.Decide.{ℕ_discrete}
use magnitude.Common.{
  ◌⊎◌, ◌≢◌, inl, inr, Option-cases, ℕ, ◌+◌, ◌*◌, ◌<◌, ◌≤◌, ◌≡◌, ◌∙◌, none, some, List, length,
  get_elem?, set, take, copy_at, if◌then◌else◌, nat_keyed, ◌==◌, arith, length-set, length-copy_at,
  get_elem?-set_self, get_elem?-set_ne,
}
use magnitude.Common.Dict
use magnitude.Common.Dict.{Dict}
use magnitude.Common.Result.{ok, err}
use magnitude.Flat.{
  dimension_mismatch, duplicate_id, get_vector, FlatIndex, append_row, insert, with_room, new,
}
use magnitude.Flat.Rows.{
  get_vector-lookup_row, lookup_row, IsValid, row_at, row_written, row_untouched, with_room-IsValid,
  with_room_same, row_at-with_room,
}

abbrev appended : {F : Type 0} → FlatIndex F → ℕ → List F → FlatIndex F
appended idx id vector = record idx {
  vectors = copy_at (idx.count * idx.dim) (take idx.dim vector) idx.vectors;
  ids = set idx.ids idx.count id;
  id_to_row = Dict.insert id idx.count idx.id_to_row;
  count = idx.count + 1;
}

module _ {F : Type 0} (idx : FlatIndex F) (v : IsValid idx) (id : ℕ) (vector : List F) where
  last_fits : idx.count < idx.capacity → idx.count * idx.dim + idx.dim ≤ length idx.vectors
  last_fits h = rw v.vectors_length (grind arith)

  append_row-ok : idx.count < idx.capacity → append_row idx id vector ≡ ok (appended idx id vector)
  unfolding append_row
  append_row-ok h = let k = v.ids_length in let l = last_fits h in ground arith

  appended_live :
      idx.count < idx.capacity
      → (j r : ℕ) → Dict.lookup j (Dict.insert id idx.count idx.id_to_row) ≡ some r
      → (r < idx.count + 1) × (get_elem? (set idx.ids idx.count id) r ≡ some j)
  appended_live room j r h = ground (
    arith,
    Dict.lookup-insert id j idx.count idx.id_to_row,
    v.live j r,
    v.ids_length,
    get_elem?-set_self idx.ids idx.count id,
    get_elem?-set_ne idx.ids idx.count r id,
  )

  appended_known :
      idx.count < idx.capacity
      → Dict.lookup id idx.id_to_row ≡ none
      → (j r : ℕ) → r < idx.count + 1
      → get_elem? (set idx.ids idx.count id) r ≡ some j
      → Dict.lookup j (Dict.insert id idx.count idx.id_to_row) ≡ some r
  appended_known room new j r lt at = ground (
    arith,
    Dict.lookup-insert id j idx.count idx.id_to_row,
    v.known j r,
    v.ids_length,
    get_elem?-set_self idx.ids idx.count id,
    get_elem?-set_ne idx.ids idx.count r id,
  )

  appended-IsValid :
      idx.count < idx.capacity
      → Dict.lookup id idx.id_to_row ≡ none
      → IsValid (appended idx id vector)
  appended-IsValid room new = record {
    room = omega arith;
    ids_length = length-set idx.ids idx.count id ∙ v.ids_length;
    vectors_length =
        length-copy_at (idx.count * idx.dim) (take idx.dim vector) idx.vectors ∙ v.vectors_length;
    live = appended_live room;
    known = appended_known room new;
  }

module _ {F : Type 0} (fresh : F) (idx : FlatIndex F) (v : IsValid idx) (id : ℕ)
    (vector : List F) where
  insert-appended :
      length vector ≡ idx.dim
      → Dict.lookup id idx.id_to_row ≡ none
      → insert fresh idx id vector ≡ ok (appended (with_room fresh idx) id vector)
  unfolding insert
  insert-appended e new =
      let w = with_room-IsValid fresh idx v in
      let s = with_room_same fresh idx in
      ground (arith, append_row-ok (with_room fresh idx) w.0 id vector (omega arith))

  row_at-appended :
      length vector ≡ idx.dim
      → (j r : ℕ) → Dict.lookup j (appended (with_room fresh idx) id vector).id_to_row ≡ some r
      → row_at (appended (with_room fresh idx) id vector) r
        ≡ (if id == j then vector else row_at idx r)
  row_at-appended e j r h =
      let w = with_room-IsValid fresh idx v in
      let s = with_room_same fresh idx in
      let live = v.live j r in
      ground (
        arith,
        Dict.lookup-insert id j (with_room fresh idx).count (with_room fresh idx).id_to_row,
        row_at-with_room fresh idx v r,
        row_written (with_room fresh idx) (with_room fresh idx).count vector (omega arith)
            (last_fits (with_room fresh idx) w.0 id vector (omega arith)),
        row_untouched (with_room fresh idx) (with_room fresh idx).count r vector,
      )

  lookup_row-appended :
      length vector ≡ idx.dim
      → Dict.lookup id idx.id_to_row ≡ none
      → (j : ℕ)
      → lookup_row
          (appended (with_room fresh idx) id vector)
          (Dict.lookup j (appended (with_room fresh idx) id vector).id_to_row)
        ≡ (if id == j then some vector else lookup_row idx (Dict.lookup j idx.id_to_row))
  lookup_row-appended e new j =
      let base = with_room fresh idx in
      let s = with_room_same fresh idx in
      let at = Dict.lookup-insert id j base.count base.id_to_row in
      elim (Option-cases (Dict.lookup j (appended base id vector).id_to_row)) [
        | inl absent ↦ ground arith
        | inr (r, found) ↦ ground (arith, row_at-appended e j r found)
      ]

  insert_inv :
      {idx' : FlatIndex F}
      → insert fresh idx id vector ≡ ok idx'
      → (length vector ≡ idx.dim)
        × (Dict.lookup id idx.id_to_row ≡ none)
        × (idx' ≡ appended (with_room fresh idx) id vector)
  unfolding insert
  insert_inv h =
      let w = with_room-IsValid fresh idx v in
      let s = with_room_same fresh idx in
      ground (arith, append_row-ok (with_room fresh idx) w.0 id vector (omega arith))

-- On a well-formed index `Insert` has one of three outcomes, and never panics: it succeeds, with one
-- live row more, exactly when the length fits and the id is new; a wrong length is reported before
-- a known id.
pub insert_outcome :
    {F : Type 0} (fresh : F) (idx : FlatIndex F) (id : ℕ) (vector : List F)
    → IsValid idx
    → ((idx' : FlatIndex F) × (insert fresh idx id vector ≡ ok idx')
        × (idx'.count ≡ idx.count + 1)
        × (length vector ≡ idx.dim)
        × (get_vector fresh idx id ≡ none))
      ⊎ ((insert fresh idx id vector ≡ err dimension_mismatch) × (length vector ≢ idx.dim))
      ⊎ ((insert fresh idx id vector ≡ err duplicate_id)
          × (length vector ≡ idx.dim)
          × (get_vector fresh idx id ≢ none))
unfolding insert get_vector
insert_outcome fresh idx id vector v = elim (ℕ_discrete (length vector) idx.dim) [
  | no wrong ↦ inr (inl (ground arith))
  | yes e ↦ elim (Option-cases (Dict.lookup id idx.id_to_row)) [
    | inl fresh_id ↦ inl (
      appended (with_room fresh idx) id vector,
      insert-appended fresh idx v id vector e fresh_id,
      omega (arith, with_room_same fresh idx),
      e,
      ground arith,
    )
    | inr (r, old) ↦ inr (inr (ground arith, e, ground arith))
  ]
]

module _ {F : Type 0} (fresh : F) (idx : FlatIndex F) (id : ℕ) (vector : List F)
    {idx' : FlatIndex F} where
  -- A successful `Insert` keeps a well-formed index well formed.
  pub insert-IsValid : IsValid idx → insert fresh idx id vector ≡ ok idx' → IsValid idx'
  insert-IsValid v h =
      let (e, new, same) = insert_inv fresh idx v id vector h in
      let (valid, room) = with_room-IsValid fresh idx v in
      let (count, dim, rows) = with_room_same fresh idx in
      rw same (appended-IsValid (with_room fresh idx) valid id vector (omega arith) (rw rows new))

  -- After a successful `Insert` the new id reads back the vector, and every other id what it read before.
  pub get_vector-insert :
      IsValid idx
      → insert fresh idx id vector ≡ ok idx'
      → (j : ℕ)
      → get_vector fresh idx' j ≡ (if id == j then some vector else get_vector fresh idx j)
  get_vector-insert v h j =
      let (e, new, same) = insert_inv fresh idx v id vector h in
      let (count, dim, rows) = with_room_same fresh idx in
      get_vector-lookup_row fresh idx' (insert-IsValid v h) j
      ∙ rw (same, get_vector-lookup_row fresh idx v j)
          (lookup_row-appended fresh idx v id vector e new j)

  pub dim-insert : IsValid idx → insert fresh idx id vector ≡ ok idx' → idx'.dim ≡ idx.dim
  dim-insert v h =
      let (e, new, same) = insert_inv fresh idx v id vector h in
      let (count, dim, rows) = with_room_same fresh idx in rw same dim
