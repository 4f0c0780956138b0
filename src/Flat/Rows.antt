-- ===== src/Flat/Rows.antt =====
-- The well-formed flat indexes, and what the row writes of flat.go do to the other rows.
use magnitude.Common.{
  ℕ, ◌+◌, ◌*◌, ◌<◌, ◌≤◌, ◌≡◌, ◌≢◌, inl, inr, sym, subst, ◌∙◌, Option, none, some, List, length,
  get_elem?, take, replicate, copy_at, slice, leb, ltb, nat_keyed, arith, length-take,
  length-replicate, length-copy_at, length-slice, get_elem?-copy_front, get_elem?-take,
  slice-copy_at_self, slice-copy_at_below, slice-copy_at_above, slice-copy_front, slice-take,
  take_all, Bool-cases, Option-cases, ap, copy_all,
}
use magnitude.Common.Dict
use magnitude.Common.Dict.{Dict}
use magnitude.Flat.{FlatIndex, grow, grown_capacity, with_room, get_vector}

abbrev pub row_at : {F : Type 0} → FlatIndex F → ℕ → List F
row_at idx r = slice (r * idx.dim) idx.dim idx.vectors

-- Every live row has its id, and the map knows exactly the live rows.
pub record IsValid {F : Type 0} (idx : FlatIndex F) : Type 0 where
  pub room : idx.count ≤ idx.capacity
  pub ids_length : length idx.ids ≡ idx.capacity
  pub vectors_length : length idx.vectors ≡ idx.capacity * idx.dim
  pub live :
      (id r : ℕ)
      → Dict.lookup id idx.id_to_row ≡ some r
      → (r < idx.count) × (get_elem? idx.ids r ≡ some id)
  pub known :
      (id r : ℕ)
      → r < idx.count
      → get_elem? idx.ids r ≡ some id
      → Dict.lookup id idx.id_to_row ≡ some r

pub rows_le : (r s d : ℕ) → r < s → r * d + d ≤ s * d
rows_le r s d h = grind arith

module _ {F : Type 0} where
  length-take_src : (idx : FlatIndex F) (src : List F) → length (take idx.dim src) ≤ idx.dim
  length-take_src idx src = omega (arith, length-take idx.dim src)

  -- A row that was written reads back, and the others read as before.
  pub row_written :
      (idx : FlatIndex F) (row : ℕ) (src : List F)
      → length src ≡ idx.dim
      → row * idx.dim + idx.dim ≤ length idx.vectors
      → slice (row * idx.dim) idx.dim (copy_at (row * idx.dim) (take idx.dim src) idx.vectors) ≡ src
  row_written idx row src e fits = rw (take_all idx.dim src (omega arith)) (
      subst (λ d. slice (row * idx.dim) d (copy_at (row * idx.dim) src idx.vectors) ≡ src) e
        (slice-copy_at_self (row * idx.dim) src idx.vectors (omega arith)))

  pub row_untouched :
      (idx : FlatIndex F) (row r : ℕ) (src : List F)
      → r ≢ row
      → slice (r * idx.dim) idx.dim (copy_at (row * idx.dim) (take idx.dim src) idx.vectors)
        ≡ row_at idx r
  row_untouched idx row r src other = elim (Bool-cases (ltb r row)) [
    | inl below ↦
        slice-copy_at_below (row * idx.dim) (r * idx.dim) idx.dim (take idx.dim src) idx.vectors
          (rows_le r row idx.dim (ground arith))
    | inr above ↦
        slice-copy_at_above (row * idx.dim) (r * idx.dim) idx.dim (take idx.dim src) idx.vectors
          (omega (arith, rows_le row r idx.dim (ground arith), length-take_src idx src))
  ]

module _ {F : Type 0} (fresh : F) (idx : FlatIndex F) (v : IsValid idx) where
  pub live_fit : idx.count * idx.dim ≤ idx.capacity * idx.dim
  live_fit = let h = v.room in grind arith

  grown_room : idx.count ≤ grown_capacity idx
  grown_room = let h = v.room in ground arith

  grown_fit : idx.count * idx.dim ≤ grown_capacity idx * idx.dim
  grown_fit = let h = grown_room in grind arith

  grown_rows : (r : ℕ) → r < idx.count → row_at (grow fresh idx) r ≡ row_at idx r
  unfolding grow
  grown_rows r h =
      slice-copy_front (r * idx.dim) idx.dim (take (idx.count * idx.dim) idx.vectors)
        (replicate (grown_capacity idx * idx.dim) fresh)
        (omega (
          arith,
          rows_le r idx.count idx.dim h,
          v.vectors_length,
          live_fit,
          length-take (idx.count * idx.dim) idx.vectors,
        ))
        (omega (
          arith,
          v.vectors_length,
          live_fit,
          grown_fit,
          length-take (idx.count * idx.dim) idx.vectors,
          length-replicate (grown_capacity idx * idx.dim) fresh,
        ))
      ∙ slice-take (r * idx.dim) idx.dim (idx.count * idx.dim) idx.vectors
          (rows_le r idx.count idx.dim h)

  grown_ids : (r : ℕ) → r < idx.count → get_elem? (grow fresh idx).ids r ≡ get_elem? idx.ids r
  unfolding grow
  grown_ids r h =
      get_elem?-copy_front r (take idx.count idx.ids) (replicate (grown_capacity idx) 0)
        (omega (arith, v.room, v.ids_length, length-take idx.count idx.ids))
        (omega (
          arith,
          v.room,
          v.ids_length,
          length-take idx.count idx.ids,
          grown_room,
          length-replicate {A = ℕ} (grown_capacity idx) 0,
        ))
      ∙ get_elem?-take r idx.count idx.ids h

  grow-IsValid : IsValid (grow fresh idx)
  unfolding grow
  grow-IsValid = record {
    room = grown_room;
    ids_length =
        length-copy_at 0 (take idx.count idx.ids) (replicate (grown_capacity idx) 0)
        ∙ length-replicate {A = ℕ} (grown_capacity idx) 0;
    vectors_length =
        length-copy_at 0 (take (idx.count * idx.dim) idx.vectors)
          (replicate (grown_capacity idx * idx.dim) fresh)
        ∙ length-replicate (grown_capacity idx * idx.dim) fresh;
    live = λ id r h. let (lt, at) = v.live id r h in (lt, grown_ids r lt ∙ at);
    known = λ id r lt at. v.known id r lt (sym (grown_ids r lt) ∙ at);
  }

  grow_makes_room : idx.capacity ≤ idx.count → idx.count < (grow fresh idx).capacity
  unfolding grow
  grow_makes_room h = let k = v.room in ground arith

  -- Before a row is appended there is room for it, and no row has moved.
  pub with_room-IsValid :
      IsValid (with_room fresh idx) × (idx.count < (with_room fresh idx).capacity)
  unfolding with_room
  with_room-IsValid = elim (Bool-cases (leb idx.capacity idx.count)) [
    | inl full ↦ rw full (grow-IsValid, grow_makes_room (ground arith))
    | inr more ↦ rw more (v, ground arith)
  ]

  pub row_at-with_room : (r : ℕ) → r < idx.count → row_at (with_room fresh idx) r ≡ row_at idx r
  unfolding with_room
  row_at-with_room r h = elim (Bool-cases (leb idx.capacity idx.count)) [
    | inl full ↦ rw full (grown_rows r h)
    | inr more ↦ rw more
  ]

-- Growth changes the backing slices only.
pub with_room_same :
    {F : Type 0} (fresh : F) (idx : FlatIndex F)
    → ((with_room fresh idx).count ≡ idx.count)
      × ((with_room fresh idx).dim ≡ idx.dim)
      × ((with_room fresh idx).id_to_row ≡ idx.id_to_row)
unfolding with_room grow
with_room_same fresh idx = ground arith

-- What a client reads: the row of the id.
abbrev pub lookup_row : {F : Type 0} → FlatIndex F → Option ℕ → Option (List F)
lookup_row idx none = none
lookup_row idx (some r) = some (row_at idx r)

module _ {F : Type 0} (fresh : F) (idx : FlatIndex F) (v : IsValid idx) where
  pub length-row_at : (r : ℕ) → r < idx.count → length (row_at idx r) ≡ idx.dim
  length-row_at r h =
      length-slice (r * idx.dim) idx.dim idx.vectors
        (omega (arith, rows_le r idx.count idx.dim h, v.vectors_length, live_fit fresh idx v))

  pub get_vector-lookup_row :
      (id : ℕ) → get_vector fresh idx id ≡ lookup_row idx (Dict.lookup id idx.id_to_row)
  unfolding get_vector
  get_vector-lookup_row id = elim (Option-cases (Dict.lookup id idx.id_to_row)) [
    | inl absent ↦ rw (absent, get_vector)
    | inr (r, found) ↦
        rw (found, get_vector)
          (ap some (
            copy_all (row_at idx r) (replicate idx.dim fresh)
              (length-row_at r (v.live id r found).0 ∙ sym (length-replicate idx.dim fresh))))
  ]
