-- ===== src/Filter/Grows.antt =====
-- Filters that take one more condition at a time.
use magnitude.Common.{
  ℕ, zero, suc, ◌+◌, ◌≤◌, ◌≡◌, refl, ap, Bool, true, false, ◌&&◌, ◌||◌, String, Option, some, List,
  [], ◌∷◌, ◌++◌, leb, string_keyed, nat_keyed, arith,
}
use magnitude.Common.Dict.{Dict}
use magnitude.Filter.{
  Value, null, num, str, boolean, arr, obj, Values, Fields, end, field, FieldFilter, Filter, filter,
  Filters, no_filters, more, match_field, match_all, match, match_any,
}
use magnitude.Filter.Parse.{
  Outcome, done, ◌>>=◌, append_filters, merge_and, add_condition, parse_operator, parse_operators,
  parse_condition,
}
use magnitude.Filter.Meaning.{
  condition, all_operators, holds_condition, holds, ors, is_plain, operators_fit, is_some_fields,
  fits, fits_condition, fits_array, fits_value,
}

-- 1 if there are alternatives.
abbrev pub count : {F : Type 0} → Filter F → ℕ
count (filter conditions no_filters) = 0
count (filter conditions (more f fs)) = 1

pub leb-le : (a b : ℕ) → leb a b ≡ true → a ≤ b
leb-le a b h = ground arith

pub and_both : (a b : Bool) → (a && b) ≡ true → (a ≡ true) × (b ≡ true)
and_both true b h = (refl, h)
and_both false b h = cc

pub fits_obj :
    {F : Type 0} (depth : ℕ) (v : Value F)
    → fits_value depth v ≡ true
    → (fs : Fields F) × (v ≡ obj fs)
unfolding fits
fits_obj zero v h = cc
fits_obj (suc depth) (obj fs) h = (fs, refl)
fits_obj (suc depth) (arr vs) h = cc
fits_obj (suc depth) null h = cc
fits_obj (suc depth) (num n) h = cc
fits_obj (suc depth) (str s) h = cc
fits_obj (suc depth) (boolean b) h = cc

pub fits_arr :
    {F : Type 0} (depth : ℕ) (v : Value F)
    → fits_array depth v ≡ true
    → (vs : Values F) × (v ≡ arr vs)
unfolding fits
fits_arr depth (arr vs) h = (vs, refl)
fits_arr depth (obj fs) h = cc
fits_arr depth null h = cc
fits_arr depth (num n) h = cc
fits_arr depth (str s) h = cc
fits_arr depth (boolean b) h = cc

pub fits_value_ten :
    {F : Type 0} (raw : Fields F)
    → (is_some_fields raw && fits 9 raw) ≡ true
    → fits_value 10 (obj raw) ≡ true
unfolding fits
fits_value_ten raw h = h

module _ {F : Type 0} (feq flt : F → F → Bool) (sprint : Value F → String)
    (meta : Dict String (Value F)) where
  match_all-append :
      (a b : List (FieldFilter F))
      → match_all feq flt sprint (a ++ b) meta
        ≡ (match_all feq flt sprint a meta && match_all feq flt sprint b meta)
  unfolding match_all
  match_all-append [] b = refl
  match_all-append (ff ∷ a) b = ground (arith, match_all-append a b)

  match_any-append :
      (a b : Filters F)
      → match_any feq flt sprint (append_filters a b) meta
        ≡ (match_any feq flt sprint a meta || match_any feq flt sprint b meta)
  unfolding match
  match_any-append no_filters b = refl
  match_any-append (more f a) b = ground (arith, match_any-append a b)

  pub append_none : (a : Filters F) → append_filters a no_filters ≡ a
  append_none no_filters = refl
  append_none (more f a) = ap (more f) (append_none a)

  pub append_append :
      (a b c : Filters F)
      → append_filters (append_filters a b) c ≡ append_filters a (append_filters b c)
  append_append no_filters b c = refl
  append_append (more f a) b c = ap (more f) (append_append a b c)

  -- A filter that takes `n` more alternatives and stands for a further condition `b`.
  pub record Grows (f : Filter F) (n : ℕ) (b : Bool) (g : Filter F) : Type 0 where
    pub counted : count g ≡ count f + n
    pub matched : match feq flt sprint g meta ≡ (match feq flt sprint f meta && b)

  pub merged :
      (f g : Filter F)
      → count f + count g ≤ 1
      → (h : Filter F) × (merge_and f (some g) ≡ done h)
        × Grows f (count g) (match feq flt sprint g meta) h
  unfolding merge_and match
  merged (filter a no_filters) (filter b no_filters) le = (
    filter (a ++ b) no_filters,
    refl,
    record { counted = refl; matched = ground (arith, match_all-append a b) },
  )
  merged (filter a no_filters) (filter b (more f fs)) le = (
    filter (a ++ b) (more f fs),
    refl,
    record { counted = refl; matched = ground (arith, match_all-append a b) },
  )
  merged (filter a (more f fs)) (filter b no_filters) le = (
    filter (a ++ b) (append_filters (more f fs) no_filters),
    refl,
    record { counted = refl; matched = ground (arith, match_all-append a b, append_none fs) },
  )
  merged (filter a (more f fs)) (filter b (more g gs)) le = absurd (omega arith)

  with_condition :
      (f : Filter F) (ff : FieldFilter F)
      → Grows f 0 (match_field feq flt sprint ff meta) (add_condition f ff)
  unfolding match match_all
  with_condition (filter a no_filters) ff = record {
    counted = refl;
    matched = ground (arith, match_all-append a (ff ∷ []));
  }
  with_condition (filter a (more f fs)) ff = record {
    counted = refl;
    matched = ground (arith, match_all-append a (ff ∷ []));
  }

  pub grown :
      {f g h : Filter F} {n m : ℕ} {b c : Bool}
      → Grows f n b g
      → Grows g m c h
      → Grows f (n + m) (b && c) h
  grown u v = record { counted = omega arith; matched = ground (arith, u.matched, v.matched) }

  pub regrow :
      {f g : Filter F} {n m : ℕ} {b c : Bool} → Grows f n b g → n ≡ m → b ≡ c → Grows f m c g
  regrow v e d = record { counted = omega arith; matched = ground (arith, v.matched, d) }

  pub still : (f : Filter F) → Grows f 0 true f
  still f = record { counted = omega arith; matched = ground arith }

  operator_lem :
      (key op : String) (v : Value F) (rest : Fields F) (f : Filter F)
      → operators_fit (field op v rest) ≡ true
      → (parse_operator key op v f ≡ done (add_condition f (condition key op v)))
        × (operators_fit rest ≡ true)
  unfolding parse_operator operators_fit
  operator_lem key op (arr vs) rest f h = (ground arith, h)
  operator_lem key op (obj fs) rest f h = (ground arith, ground arith)
  operator_lem key op null rest f h = (ground arith, ground arith)
  operator_lem key op (num n) rest f h = (ground arith, ground arith)
  operator_lem key op (str s) rest f h = (ground arith, ground arith)
  operator_lem key op (boolean b) rest f h = (ground arith, ground arith)

  operators_lem :
      (key : String) (ops : Fields F) (f : Filter F)
      → operators_fit ops ≡ true
      → (g : Filter F) × (parse_operators key ops f ≡ done g)
        × Grows f 0 (all_operators feq flt sprint meta key ops) g
  unfolding parse_operators all_operators
  operators_lem key end f h = (f, refl, still f)
  operators_lem key (field op v rest) f h =
      let (e, fit) = operator_lem key op v rest f h in
      let g = add_condition f (condition key op v) in
      let (k, d, grows) = operators_lem key rest g fit in
      (k, rw (e, ◌>>=◌) d, grown (with_condition f (condition key op v)) grows)

  pub condition_lem :
      (key : String) (v : Value F) (f : Filter F)
      → fits_condition v ≡ true
      → (g : Filter F) × (parse_condition key v f ≡ done g)
        × Grows f 0 (holds_condition feq flt sprint meta key v) g
  unfolding parse_condition holds_condition fits
  condition_lem key (obj ops) f h = operators_lem key ops f h
  condition_lem key (arr vs) f h = (_, refl, with_condition f (condition key "$eq" (arr vs)))
  condition_lem key null f h = (_, refl, with_condition f (condition key "$eq" null))
  condition_lem key (num n) f h = (_, refl, with_condition f (condition key "$eq" (num n)))
  condition_lem key (str s) f h = (_, refl, with_condition f (condition key "$eq" (str s)))
  condition_lem key (boolean b) f h = (_, refl, with_condition f (condition key "$eq" (boolean b)))

  -- A parser of documents that nest at most so deep, on those whose parts it keeps apart.
  abbrev pub Parses : ℕ → (Fields F → Outcome (Option (Filter F))) → Type 0
  Parses depth parse =
      (fs : Fields F)
      → fits_value depth (obj fs) ≡ true
      → is_plain fs ≡ true
      → ors fs ≤ 1
      → (f : Filter F) × (parse fs ≡ done (some f))
        × (count f ≡ ors fs)
        × (match feq flt sprint f meta ≡ holds feq flt sprint meta fs)
