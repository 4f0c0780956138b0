-- ===== src/Filter.antt =====
-- internal/metadata/filter.go: filters on the metadata of vectors. A value is what encoding/json makes
-- of a JSON text; `F` is float64 with its tests `feq` and `flt`, and `sprint` is the `%v` of fmt. A
-- map is the list of its entries in the order of a `range`. `strings.Compare` is the order of texts.
pub mod Parse
pub mod Meaning
pub mod Grows
pub mod Sound
pub mod Faults
mod Tests
use Prim.Native.String.{compare}
use Prim.Native.Nat.{Ordering, lt, eq, gt}
use magnitude.Common.{
  Bool, true, false, not, String, Option, none, some, List, [], ◌∷◌, ◌==◌, string_keyed,
  if◌then◌else◌,
}
use magnitude.Common.Dict
use magnitude.Common.Dict.{Dict}

mutual
  pub data Value (F : Type 0) : Type 0 where
    null : Value F
    num : F → Value F
    str : String → Value F
    boolean : Bool → Value F
    arr : Values F → Value F
    obj : Fields F → Value F

  pub data Values (F : Type 0) : Type 0 where
    nil : Values F
    cons : Value F → Values F → Values F

  pub data Fields (F : Type 0) : Type 0 where
    end : Fields F
    field : String → Value F → Fields F → Fields F

pub record FieldFilter (F : Type 0) : Type 0 where
  pub name : String
  pub operator : String
  pub value : Value F
  pub values : Values F

-- The conjunction of the first list, and of one of the filters of the second if it is not empty.
mutual
  pub data Filter (F : Type 0) : Type 0 where
    filter : List (FieldFilter F) → Filters F → Filter F

  pub data Filters (F : Type 0) : Type 0 where
    no_filters : Filters F
    more : Filter F → Filters F → Filters F

-- The signs of the integer that `compareNumeric` returns.
abbrev is_gt : Ordering → Bool
is_gt gt = true
is_gt _ = false

abbrev is_lt : Ordering → Bool
is_lt lt = true
is_lt _ = false

abbrev pub same_bool : Bool → Bool → Bool
same_bool true b = b
same_bool false b = not b

module _ {F : Type 0} (feq flt : F → F → Bool) (sprint : Value F → String) where
  unfoldable pub compare_equal : Value F → Value F → Bool
  compare_equal (num a) (num b) = feq a b
  compare_equal (str a) (str b) = a == b
  compare_equal (boolean a) (boolean b) = same_bool a b
  compare_equal a b = sprint a == sprint b

  unfoldable pub compare_numeric : Value F → Value F → Ordering
  compare_numeric (num a) (num b) = if flt a b then lt else if flt b a then gt else eq
  compare_numeric a b = compare (sprint a) (sprint b)

  unfoldable pub is_in : Value F → Values F → Bool
  is_in val nil = false
  is_in val (cons v vs) = if compare_equal val v then true else is_in val vs

  -- The metadata has the field.
  unfoldable pub match_present : String → Value F → Value F → Values F → Bool
  unfolding compare_equal compare_numeric is_in
  match_present operator val value values =
      if operator == "$eq"
      then compare_equal val value
      else if operator == "$ne"
      then not (compare_equal val value)
      else if operator == "$gt"
      then is_gt (compare_numeric val value)
      else if operator == "$gte"
      then not (is_lt (compare_numeric val value))
      else if operator == "$lt"
      then is_lt (compare_numeric val value)
      else if operator == "$lte"
      then not (is_gt (compare_numeric val value))
      else if operator == "$in"
      then is_in val values
      else if operator == "$nin"
      then not (is_in val values)
      else false

  unfoldable pub match_absent : String → Bool
  match_absent operator =
      if operator == "$ne" then true else if operator == "$nin" then true else false

  unfoldable pub match_field : FieldFilter F → Dict String (Value F) → Bool
  unfolding match_present match_absent
  match_field ff meta = elim (Dict.lookup ff.name meta) [
    | none ↦ match_absent ff.operator
    | some val ↦ match_present ff.operator val ff.value ff.values
  ]

  unfoldable pub match_all : List (FieldFilter F) → Dict String (Value F) → Bool
  match_all [] meta = true
  match_all (ff ∷ ffs) meta = if match_field ff meta then match_all ffs meta else false

  unfoldable mutual
    pub match : Filter F → Dict String (Value F) → Bool
    match (filter conditions alternatives) meta =
        if match_all conditions meta then match_or alternatives meta else false

    -- No alternatives at all match.
    pub match_or : Filters F → Dict String (Value F) → Bool
    match_or no_filters meta = true
    match_or (more f fs) meta = if match f meta then true else match_any fs meta

    pub match_any : Filters F → Dict String (Value F) → Bool
    match_any no_filters meta = false
    match_any (more f fs) meta = if match f meta then true else match_any fs meta
