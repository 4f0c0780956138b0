-- ===== src/Flat.antt =====
-- internal/index/flat/flat.go: the brute-force index. All vectors stand in one row-major slice.
-- `F` is Go's `float32`; `fresh` is the value that `make` fills a slice with. A method returns the
-- new index, or an error: every error is returned before the first write, so the index is then as
-- it was. An index out of range is the error `panic`. Dimensions, rows and capacities are numbers:
-- a negative `dim` has no counterpart here.
pub mod Rows
pub mod Insert
pub mod Delete
pub mod Refine
mod Tests
use magnitude.Common.{
  ℕ, ◌+◌, ◌-◌, ◌*◌, Bool, true, not, String, Option, none, some, List, [], length, get_elem?, set,
  take, replicate, copy_at, slice, ltb, leb, ◌==◌, nat_keyed, string_keyed, if◌then◌else◌,
}
use magnitude.Common.Dict
use magnitude.Common.Dict.{Dict}
use magnitude.Common.Result.{Result, ok, err, ◌>>=◌}

-- The codes of internal/errors that the index returns, and a run-time panic.
pub data Error : Type 0 where
  dimension_mismatch duplicate_id vector_not_found unknown_metric panic : Error

pub record FlatIndex (F : Type 0) : Type 0 where
  pub dim : ℕ
  pub metric : String
  pub capacity : ℕ
  pub count : ℕ
  pub vectors : List F
  pub ids : List ℕ
  pub id_to_row : Dict ℕ ℕ

abbrev pub default_initial_capacity : ℕ
default_initial_capacity = 1024

-- The names that `GetDistanceFunc` knows.
unfoldable pub is_metric : String → Bool
is_metric name =
    if name == "l2"
    then true
    else if name == "cosine"
    then true
    else if name == "dot"
    then true
    else name == "manhattan"

module _ {F : Type 0} where
  -- `copy(idx.vectors[row*dim:(row+1)*dim], src)`
  unfoldable pub write_row : FlatIndex F → ℕ → List F → Result Error (List F)
  write_row idx row src =
      if leb (row * idx.dim + idx.dim) (length idx.vectors)
      then ok (copy_at (row * idx.dim) (take idx.dim src) idx.vectors)
      else err panic

  -- `idx.ids[row] = id`
  unfoldable pub write_id : FlatIndex F → ℕ → ℕ → Result Error (List ℕ)
  write_id idx row id = if ltb row (length idx.ids) then ok (set idx.ids row id) else err panic

  -- The part of `Insert` after the growth.
  unfoldable pub append_row : FlatIndex F → ℕ → List F → Result Error (FlatIndex F)
  unfolding write_row write_id
  append_row idx id vector = do
    vectors ← write_row idx idx.count vector
    ids ← write_id idx idx.count id
    ok (record idx {
      vectors = vectors;
      ids = ids;
      id_to_row = Dict.insert id idx.count idx.id_to_row;
      count = idx.count + 1;
    })

  -- The part of `Delete` for a row that is not the last.
  unfoldable pub move_last : FlatIndex F → ℕ → ℕ → Result Error (FlatIndex F)
  unfolding write_row write_id
  move_last idx row last_row = elim (get_elem? idx.ids last_row) [
    | none ↦ err panic
    | some last_id ↦ do
      vectors ← write_row idx row (slice (last_row * idx.dim) idx.dim idx.vectors)
      ids ← write_id idx row last_id
      ok (record idx {
        vectors = vectors;
        ids = ids;
        id_to_row = Dict.insert last_id row idx.id_to_row;
      })
  ]

  -- The end of `Delete`.
  unfoldable pub drop_last : FlatIndex F → ℕ → FlatIndex F
  drop_last idx id = record idx { id_to_row = Dict.delete id idx.id_to_row; count = idx.count - 1 }

  unfoldable pub delete : FlatIndex F → ℕ → Result Error (FlatIndex F)
  unfolding move_last drop_last
  delete idx id = elim (Dict.lookup id idx.id_to_row) [
    | none ↦ err vector_not_found
    | some row ↦
        let last_row = idx.count - 1 in
        if row == last_row
        then ok (drop_last idx id)
        else do moved ← move_last idx row last_row; ok (drop_last moved id)
  ]

  -- The capacity after `grow`.
  abbrev pub grown_capacity : FlatIndex F → ℕ
  grown_capacity idx = if idx.capacity * 2 == 0 then default_initial_capacity else idx.capacity * 2

module _ {F : Type 0} (fresh : F) where
  unfoldable pub new : ℕ → String → Result Error (FlatIndex F)
  unfolding is_metric
  new dim metric =
      if leb dim 0
      then err dimension_mismatch
      else if is_metric metric
      then ok (record {
        dim = dim;
        metric = metric;
        capacity = default_initial_capacity;
        count = 0;
        vectors = replicate (default_initial_capacity * dim) fresh;
        ids = replicate default_initial_capacity 0;
        id_to_row = [];
      })
      else err unknown_metric

  unfoldable pub grow : FlatIndex F → FlatIndex F
  grow idx =
      let new_cap = grown_capacity idx in
      record idx {
        vectors =
            copy_at 0 (take (idx.count * idx.dim) idx.vectors)
              (replicate (new_cap * idx.dim) fresh);
        ids = copy_at 0 (take idx.count idx.ids) (replicate new_cap 0);
        capacity = new_cap;
      }

  -- `if idx.count >= idx.capacity { idx.grow() }`
  unfoldable pub with_room : FlatIndex F → FlatIndex F
  with_room idx = if leb idx.capacity idx.count then grow idx else idx

  unfoldable pub insert : FlatIndex F → ℕ → List F → Result Error (FlatIndex F)
  insert idx id vector =
      if not (length vector == idx.dim)
      then err dimension_mismatch
      else elim (Dict.lookup id idx.id_to_row) [
        | some row ↦ err duplicate_id
        | none ↦ append_row (with_room idx) id vector
      ]

  -- The vector and `true`, or `nil` and `false`.
  unfoldable pub get_vector : FlatIndex F → ℕ → Option (List F)
  get_vector idx id = elim (Dict.lookup id idx.id_to_row) [
    | none ↦ none
    | some row ↦
        some (copy_at 0 (slice (row * idx.dim) idx.dim idx.vectors) (replicate idx.dim fresh))
  ]

  unfoldable pub all_vectors : FlatIndex F → List ℕ × List F × ℕ
  all_vectors idx = (
    copy_at 0 (take idx.count idx.ids) (replicate idx.count 0),
    copy_at 0 (take (idx.count * idx.dim) idx.vectors) (replicate (idx.count * idx.dim) fresh),
    idx.count,
  )
