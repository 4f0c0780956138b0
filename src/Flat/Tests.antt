-- ===== src/Flat/Tests.antt =====
-- The flat index at work: vectors of two numbers, and a capacity of one row that has to grow.
use magnitude.Common.{ℕ, ◌≡◌, ◌≢◌, ◌⊎◌, ◌+◌, refl, none, List, [], ◌∷◌, length}
use magnitude.Common.Dict
use magnitude.Common.Result.{ok, err}
use magnitude.Flat.{
  FlatIndex, with_room, insert, delete, get_vector, dimension_mismatch, duplicate_id, grow,
  append_row,
}
use magnitude.Flat.Rows.{IsValid}
use magnitude.Flat.Insert.{insert_outcome}
use magnitude.Flat.Refine.{
  Call, insert_call, delete_call, run, spec_run, call, empty_index, empty_index-IsValid,
  run_refines,
}

abbrev tiny : FlatIndex ℕ
tiny = empty_index 0 1 2 "l2"

abbrev calls : List (Call ℕ)
calls =
    insert_call 7 (1 ∷ 2 ∷ [])
    ∷ insert_call 8 (3 ∷ 4 ∷ [])
    ∷ insert_call 9 (5 ∷ 6 ∷ [])
    ∷ insert_call 8 (0 ∷ 0 ∷ [])
    ∷ delete_call 7
    ∷ []

-- The deleted row is filled by the last one.
calls_ids : (run 0 tiny calls).ids ≡ 9 ∷ 8 ∷ 9 ∷ 0 ∷ []
unfolding run call insert delete append_row grow Dict.lookup Dict.insert Dict.delete with_room
calls_ids = refl

tiny-IsValid : IsValid tiny
tiny-IsValid = empty_index-IsValid 0 1 2 "l2"

run_refines_example :
    IsValid (run 0 tiny calls)
    × ((j : ℕ) → get_vector 0 (run 0 tiny calls) j ≡ spec_run 2 (get_vector 0 tiny) calls j)
run_refines_example = run_refines 0 tiny calls tiny-IsValid

abbrev two_rows : FlatIndex ℕ
two_rows = run 0 tiny (insert_call 7 (1 ∷ 2 ∷ []) ∷ insert_call 8 (3 ∷ 4 ∷ []) ∷ [])

two_rows-IsValid : IsValid two_rows
two_rows-IsValid =
    (run_refines 0 tiny (insert_call 7 (1 ∷ 2 ∷ []) ∷ insert_call 8 (3 ∷ 4 ∷ []) ∷ [])
      tiny-IsValid).0

abbrev vec : List ℕ
vec = 5 ∷ 6 ∷ []

insert_outcome_example :
    ((idx' : FlatIndex ℕ) × (insert 0 two_rows 9 vec ≡ ok idx')
      × (idx'.count ≡ two_rows.count + 1)
      × (length vec ≡ two_rows.dim)
      × (get_vector 0 two_rows 9 ≡ none))
    ⊎ ((insert 0 two_rows 9 vec ≡ err dimension_mismatch) × (length vec ≢ two_rows.dim))
    ⊎ ((insert 0 two_rows 9 vec ≡ err duplicate_id)
        × (length vec ≡ two_rows.dim)
        × (get_vector 0 two_rows 9 ≢ none))
insert_outcome_example = insert_outcome 0 two_rows 9 vec two_rows-IsValid

two_rows_count : two_rows.count ≡ 2
unfolding run call insert append_row grow Dict.lookup Dict.insert with_room
two_rows_count = refl
