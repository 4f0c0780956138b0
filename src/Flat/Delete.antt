-- ===== src/Flat/Delete.antt =====
-- `Delete` of flat.go: the last row moves into the place of the deleted one.
use magnitude.Common.{
  ℕ, ◌+◌, ◌-◌, ◌*◌, ◌<◌, ◌≤◌, ◌≡◌, ◌≢◌, ◌⊎◌, inl, inr, ◌∙◌, none, some, length, get_elem?, set,
  take, copy_at, slice, if◌then◌else◌, nat_keyed, ◌==◌, arith, length-set, length-copy_at,
  get_elem?-set_self, get_elem?-set_ne, get_elem?_total, Option-cases,
}
use magnitude.Common.Dict
use magnitude.Common.Result.{ok, err}
use magnitude.Flat.{vector_not_found, FlatIndex, delete, get_vector}
use magnitude.Flat.Rows.{
  IsValid, row_at, row_written, row_untouched, get_vector-lookup_row, lookup_row, length-row_at,
  rows_le,
}

-- What `move_last` makes when the last row's id is `last_id`.
abbrev moved : {F : Type 0} → FlatIndex F → ℕ → ℕ → ℕ → FlatIndex F
moved idx row last_row last_id = record idx {
  vectors =
      copy_at (row * idx.dim) (take idx.dim (slice (last_row * idx.dim) idx.dim idx.vectors))
        idx.vectors;
  ids = set idx.ids row last_id;
  id_to_row = Dict.insert last_id row idx.id_to_row;
}

-- The index after a deletion: `last_id` is the id of the last row.
abbrev deleted : {F : Type 0} → FlatIndex F → ℕ → ℕ → ℕ → FlatIndex F
deleted idx id row last_id =
    if row == idx.count - 1
    then record idx { id_to_row = Dict.delete id idx.id_to_row; count = idx.count - 1 }
    else record idx {
      vectors =
          copy_at (row * idx.dim)
            (take idx.dim (slice ((idx.count - 1) * idx.dim) idx.dim idx.vectors)) idx.vectors;
      ids = set idx.ids row last_id;
      id_to_row = Dict.delete id (Dict.insert last_id row idx.id_to_row);
      count = idx.count - 1;
    }

module _ {F : Type 0} (fresh : F) (idx : FlatIndex F) (v : IsValid idx) (id row : ℕ)
    (found : Dict.lookup id idx.id_to_row ≡ some row) where
  last : (last_id : ℕ) × (get_elem? idx.ids (idx.count - 1) ≡ some last_id)
  last =
      get_elem?_total idx.ids (idx.count - 1)
        (omega (arith, (v.live id row found).0, v.room, v.ids_length))

  row_fits : row * idx.dim + idx.dim ≤ length idx.vectors
  row_fits =
      let l = (v.live id row found).0 in
      omega (arith, v.vectors_length, rows_le row idx.capacity idx.dim (omega (arith, v.room)))

  delete-deleted : delete idx id ≡ ok (deleted idx id row last.0)
  unfolding delete
  delete-deleted =
      let l = (v.live id row found).0 in
      let f = row_fits in let h = v.room in let k = v.ids_length in ground (arith, last.1)

  -- The ids after the deletion, and the rows that they map to.
  deleted_live :
      (j r : ℕ)
      → Dict.lookup j (deleted idx id row last.0).id_to_row ≡ some r
      → (r < idx.count - 1) × (get_elem? (deleted idx id row last.0).ids r ≡ some j)
  deleted_live j r = ground (
    arith,
    last.1,
    v.live j r,
    v.live id row found,
    v.known last.0 (idx.count - 1),
    v.room,
    v.ids_length,
    v.known j (idx.count - 1),
    Dict.lookup-delete id j idx.id_to_row,
    Dict.lookup-delete id j (Dict.insert last.0 row idx.id_to_row),
    Dict.lookup-insert last.0 j row idx.id_to_row,
    get_elem?-set_self idx.ids row last.0,
    get_elem?-set_ne idx.ids row r last.0,
  )

  deleted_known :
      (j r : ℕ)
      → r < idx.count - 1
      → get_elem? (deleted idx id row last.0).ids r ≡ some j
      → Dict.lookup j (deleted idx id row last.0).id_to_row ≡ some r
  deleted_known j r = ground (
    arith,
    last.1,
    v.known j r,
    v.live id row found,
    v.known last.0 (idx.count - 1),
    v.room,
    v.ids_length,
    v.live id r,
    Dict.lookup-delete id j idx.id_to_row,
    Dict.lookup-delete id j (Dict.insert last.0 row idx.id_to_row),
    Dict.lookup-insert last.0 j row idx.id_to_row,
    get_elem?-set_self idx.ids row last.0,
    get_elem?-set_ne idx.ids row r last.0,
  )

  deleted_count : (deleted idx id row last.0).count ≡ idx.count - 1
  deleted_count = ground arith

  deleted-IsValid : IsValid (deleted idx id row last.0)
  deleted-IsValid = record {
    room = let h = v.room in ground arith;
    ids_length = ground (arith, v.ids_length, length-set idx.ids row last.0);
    vectors_length = ground (
      arith,
      v.vectors_length,
      length-copy_at (row * idx.dim)
          (take idx.dim (slice ((idx.count - 1) * idx.dim) idx.dim idx.vectors)) idx.vectors,
    );
    live = λ j r h. let (lt, at) = deleted_live j r h in (rw deleted_count lt, at);
    known = λ j r lt at. deleted_known j r (rw deleted_count at lt) at;
  }

  row_at-deleted :
      (j r : ℕ)
      → Dict.lookup j (deleted idx id row last.0).id_to_row ≡ some r
      → lookup_row idx (Dict.lookup j idx.id_to_row) ≡ some (row_at (deleted idx id row last.0) r)
  row_at-deleted j r h =
      let f = row_fits in
      ground (
        arith,
        last.1,
        v.live j r,
        v.live id row found,
        v.known last.0 (idx.count - 1),
        v.room,
        v.ids_length,
        Dict.lookup-delete id j idx.id_to_row,
        Dict.lookup-delete id j (Dict.insert last.0 row idx.id_to_row),
        Dict.lookup-insert last.0 j row idx.id_to_row,
        row_written idx row (row_at idx (idx.count - 1))
            (length-row_at fresh idx v (idx.count - 1) (omega (arith, (v.live id row found).0))),
        row_untouched idx row r (row_at idx (idx.count - 1)),
      )

  lookup_row-deleted :
      (j : ℕ)
      → lookup_row (deleted idx id row last.0) (Dict.lookup j (deleted idx id row last.0).id_to_row)
        ≡ (if id == j then none else lookup_row idx (Dict.lookup j idx.id_to_row))
  lookup_row-deleted j = elim (Option-cases (Dict.lookup j (deleted idx id row last.0).id_to_row)) [
    | inl absent ↦ ground (
      arith,
      Dict.lookup-delete id j idx.id_to_row,
      Dict.lookup-delete id j (Dict.insert last.0 row idx.id_to_row),
      Dict.lookup-insert last.0 j row idx.id_to_row,
    )
    | inr (r, here) ↦ ground (
      arith,
      row_at-deleted j r here,
      Dict.lookup-delete id j idx.id_to_row,
      Dict.lookup-delete id j (Dict.insert last.0 row idx.id_to_row),
    )
  ]

delete_inv :
    {F : Type 0} (idx : FlatIndex F) (id : ℕ) {idx' : FlatIndex F}
    → delete idx id ≡ ok idx'
    → (row : ℕ) × (Dict.lookup id idx.id_to_row ≡ some row)
unfolding delete
delete_inv idx id h = ground arith

-- On a well-formed index `Delete` has one of two outcomes, and never panics: the id was there, and
-- one live row is gone, or it was not, and that is the error.
pub delete_outcome :
    {F : Type 0} (fresh : F) (idx : FlatIndex F) (id : ℕ)
    → IsValid idx
    → ((idx' : FlatIndex F) × (delete idx id ≡ ok idx')
        × (idx'.count + 1 ≡ idx.count)
        × (get_vector fresh idx id ≢ none))
      ⊎ ((delete idx id ≡ err vector_not_found) × (get_vector fresh idx id ≡ none))
unfolding delete get_vector
delete_outcome fresh idx id v = elim (Option-cases (Dict.lookup id idx.id_to_row)) [
  | inl absent ↦ inr (ground arith, ground arith)
  | inr (row, found) ↦ inl (
    deleted idx id row (last fresh idx v id row found).0,
    delete-deleted fresh idx v id row found,
    omega (arith, deleted_count fresh idx v id row found, (v.live id row found).0),
    ground arith,
  )
]

module _ {F : Type 0} (fresh : F) (idx : FlatIndex F) (id : ℕ) {idx' : FlatIndex F} where
  delete-eq :
      (v : IsValid idx) (h : delete idx id ≡ ok idx')
      → let (row, found) = delete_inv idx id h in
        idx' ≡ deleted idx id row (last fresh idx v id row found).0
  delete-eq v h =
      let (row, found) = delete_inv idx id h in cc (delete-deleted fresh idx v id row found)

  -- A successful `Delete` keeps a well-formed index well formed.
  pub delete-IsValid : IsValid idx → delete idx id ≡ ok idx' → IsValid idx'
  delete-IsValid v h =
      let (row, found) = delete_inv idx id h in
      rw (delete-eq v h) (deleted-IsValid fresh idx v id row found)

  -- After a successful `Delete` the id reads nothing, and every other id, that of the moved row too,
  -- what it read before.
  pub get_vector-delete :
      IsValid idx
      → delete idx id ≡ ok idx'
      → (j : ℕ) → get_vector fresh idx' j ≡ (if id == j then none else get_vector fresh idx j)
  get_vector-delete v h j =
      let (row, found) = delete_inv idx id h in
      get_vector-lookup_row fresh idx' (delete-IsValid v h) j
      ∙ rw (delete-eq v h, get_vector-lookup_row fresh idx v j)
          (lookup_row-deleted fresh idx v id row found j)

  pub dim-delete : IsValid idx → delete idx id ≡ ok idx' → idx'.dim ≡ idx.dim
  dim-delete v h = rw (delete-eq v h) (ground arith)
