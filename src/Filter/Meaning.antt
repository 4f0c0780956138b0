-- ===== src/Filter/Meaning.antt =====
-- What a filter document means, read directly, and the documents whose parts the parser keeps apart.
use magnitude.Common.{
  ℕ, zero, suc, ◌+◌, Bool, true, false, not, ◌&&◌, ◌||◌, String, leb, ◌==◌, string_keyed, nat_keyed,
  if◌then◌else◌,
}
use magnitude.Common.Dict.{Dict}
use magnitude.Filter.{
  Value, null, num, str, boolean, arr, obj, Values, nil, cons, Fields, end, field, FieldFilter,
  match_field,
}
use magnitude.Filter.Parse.{is_list_operator}

-- The condition for one operator.
abbrev elements : {F : Type 0} → Value F → Values F
elements (arr vs) = vs
elements v = nil

abbrev pub condition : {F : Type 0} → String → String → Value F → FieldFilter F
condition key op v =
    if is_list_operator op
    then record { name = key; operator = op; value = null; values = elements v }
    else record { name = key; operator = op; value = v; values = nil }

module _ {F : Type 0} (feq flt : F → F → Bool) (sprint : Value F → String)
    (meta : Dict String (Value F)) where
  unfoldable pub all_operators : String → Fields F → Bool
  all_operators key end = true
  all_operators key (field op v rest) =
      match_field feq flt sprint (condition key op v) meta && all_operators key rest

  unfoldable pub holds_condition : String → Value F → Bool
  unfolding all_operators
  holds_condition key (obj ops) = all_operators key ops
  holds_condition key v = match_field feq flt sprint (condition key "$eq" v) meta

  -- `$and` holds if all elements hold, `$or` if one does, and a document if all of its entries do.
  unfoldable mutual
    unfolding holds_condition

    pub holds : Fields F → Bool
    holds end = true
    holds (field key val rest) =
        (if key == "$and"
          then holds_every val
          else if key == "$or"
          then holds_some val
          else holds_condition key val)
        && holds rest

    pub holds_every : Value F → Bool
    holds_every (arr vs) = every vs
    holds_every (obj fs) = false
    holds_every null = false
    holds_every (num n) = false
    holds_every (str s) = false
    holds_every (boolean b) = false

    pub holds_some : Value F → Bool
    holds_some (arr vs) = any vs
    holds_some (obj fs) = false
    holds_some null = false
    holds_some (num n) = false
    holds_some (str s) = false
    holds_some (boolean b) = false

    pub every : Values F → Bool
    every nil = true
    every (cons v vs) = holds_value v && every vs

    pub any : Values F → Bool
    any nil = false
    any (cons v vs) = holds_value v || any vs

    holds_value : Value F → Bool
    holds_value (obj fs) = holds fs
    holds_value (arr vs) = false
    holds_value null = false
    holds_value (num n) = false
    holds_value (str s) = false
    holds_value (boolean b) = false

module _ {F : Type 0} where
  -- The `$or` entries of a document, those under its `$and` included.
  unfoldable mutual
    pub ors : Fields F → ℕ
    ors end = 0
    ors (field key val rest) =
        (if key == "$and" then ors_value val else if key == "$or" then 1 else 0) + ors rest

    pub ors_value : Value F → ℕ
    ors_value (arr vs) = ors_values vs
    ors_value (obj fs) = ors fs
    ors_value null = 0
    ors_value (num n) = 0
    ors_value (str s) = 0
    ors_value (boolean b) = 0

    pub ors_values : Values F → ℕ
    ors_values nil = 0
    ors_values (cons v vs) = ors_value v + ors_values vs

  abbrev pub is_filled : Value F → Bool
  is_filled (arr (cons v vs)) = true
  is_filled _ = false

  -- No alternatives of the document, or of an element of a `$or` in it, are empty, and each such
  -- element has one `$or` at most.
  unfoldable mutual
    unfolding ors

    pub is_plain : Fields F → Bool
    is_plain end = true
    is_plain (field key val rest) =
        (if key == "$and"
          then plain_value val
          else if key == "$or"
          then is_filled val && apart_value val
          else true)
        && is_plain rest

    pub plain_value : Value F → Bool
    plain_value (arr vs) = plain_values vs
    plain_value (obj fs) = is_plain fs
    plain_value null = true
    plain_value (num n) = true
    plain_value (str s) = true
    plain_value (boolean b) = true

    pub plain_values : Values F → Bool
    plain_values nil = true
    plain_values (cons v vs) = plain_value v && plain_values vs

    pub apart_value : Value F → Bool
    apart_value (arr vs) = apart_values vs
    apart_value (obj fs) = leb (ors fs) 1 && is_plain fs
    apart_value null = true
    apart_value (num n) = true
    apart_value (str s) = true
    apart_value (boolean b) = true

    pub apart_values : Values F → Bool
    apart_values nil = true
    apart_values (cons v vs) = apart_value v && apart_values vs

  unfoldable pub operators_fit : Fields F → Bool
  operators_fit end = true
  operators_fit (field op (arr vs) rest) = operators_fit rest
  operators_fit (field op v rest) = not (is_list_operator op) && operators_fit rest

  abbrev pub is_some_fields : Fields F → Bool
  is_some_fields end = false
  is_some_fields (field key val rest) = true

  -- `$and` and `$or` have arrays of non-empty objects, `$in` and `$nin` have arrays, and objects nest
  -- at most so deep.
  unfoldable mutual
    unfolding operators_fit

    pub fits : ℕ → Fields F → Bool
    fits depth end = true
    fits depth (field key val rest) =
        (if key == "$and" || key == "$or" then fits_array depth val else fits_condition val)
        && fits depth rest

    pub fits_condition : Value F → Bool
    fits_condition (obj ops) = operators_fit ops
    fits_condition (arr vs) = true
    fits_condition null = true
    fits_condition (num n) = true
    fits_condition (str s) = true
    fits_condition (boolean b) = true

    pub fits_array : ℕ → Value F → Bool
    fits_array depth (arr vs) = fits_values depth vs
    fits_array depth (obj fs) = false
    fits_array depth null = false
    fits_array depth (num n) = false
    fits_array depth (str s) = false
    fits_array depth (boolean b) = false

    pub fits_values : ℕ → Values F → Bool
    fits_values depth nil = true
    fits_values depth (cons v vs) = fits_value depth v && fits_values depth vs

    pub fits_value : ℕ → Value F → Bool
    fits_value zero v = false
    fits_value (suc depth) (obj fs) = is_some_fields fs && fits depth fs
    fits_value (suc depth) (arr vs) = false
    fits_value (suc depth) null = false
    fits_value (suc depth) (num n) = false
    fits_value (suc depth) (str s) = false
    fits_value (suc depth) (boolean b) = false
