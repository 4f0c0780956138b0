-- ===== src/Filter/Parse.antt =====
-- `ParseFilter` of internal/metadata/filter.go.
use magnitude.Common.{
  ℕ, zero, suc, Bool, ◌||◌, String, Option, none, some, [], ◌∷◌, ◌++◌, ◌==◌, string_keyed,
  if◌then◌else◌,
}
use magnitude.Filter.{
  Value, null, arr, obj, Values, nil, cons, Fields, end, field, FieldFilter, Filter, filter,
  Filters, no_filters, more,
}

pub data Error : Type 0 where
  too_deep and_not_array and_not_object or_not_array or_not_object needs_array : Error

-- `panicked` is the panic of a nil pointer.
pub data Outcome (A : Type 0) : Type 0 where
  done : A → Outcome A
  failed : Error → Outcome A
  panicked : Outcome A

infixl 5 ◌>>=◌
abbrev pub ◌>>=◌ : {A B : Type 0} → Outcome A → (A → Outcome B) → Outcome B
done a >>= f = f a
failed e >>= f = failed e
panicked >>= f = panicked

abbrev pub is_list_operator : String → Bool
is_list_operator op = op == "$in" || op == "$nin"

module _ {F : Type 0} where
  abbrev pub append_filters : Filters F → Filters F → Filters F
  append_filters no_filters gs = gs
  append_filters (more f fs) gs = more f (append_filters fs gs)

  -- `f.AND = append(f.AND, subFilter.AND...)` and the same for OR; `none` is a nil pointer.
  unfoldable pub merge_and : Filter F → Option (Filter F) → Outcome (Filter F)
  merge_and f none = panicked
  merge_and (filter conditions alternatives) (some (filter conds alts)) =
      done (filter (conditions ++ conds) (append_filters alternatives alts))

  -- `f.OR = append(f.OR, *subFilter)`
  unfoldable pub merge_or : Filter F → Option (Filter F) → Outcome (Filter F)
  merge_or f none = panicked
  merge_or (filter conditions alternatives) (some sub) =
      done (filter conditions (append_filters alternatives (more sub no_filters)))

  abbrev pub add_condition : Filter F → FieldFilter F → Filter F
  add_condition (filter conditions alternatives) ff = filter (conditions ++ ff ∷ []) alternatives

  -- One operator of a field: `$in` and `$nin` want an array.
  unfoldable pub parse_operator : String → String → Value F → Filter F → Outcome (Filter F)
  parse_operator key op (arr vs) f =
      if is_list_operator op
      then done (add_condition f (record { name = key; operator = op; value = null; values = vs }))
      else done
          (add_condition f (record { name = key; operator = op; value = arr vs; values = nil }))
  parse_operator key op v f =
      if is_list_operator op
      then failed needs_array
      else done (add_condition f (record { name = key; operator = op; value = v; values = nil }))

  unfoldable pub parse_operators : String → Fields F → Filter F → Outcome (Filter F)
  unfolding parse_operator
  parse_operators key end f = done f
  parse_operators key (field op v rest) f = parse_operator key op v f >>= parse_operators key rest

  unfoldable pub parse_condition : String → Value F → Filter F → Outcome (Filter F)
  unfolding parse_operators
  parse_condition key (obj ops) f = parse_operators key ops f
  parse_condition key v f =
      done (add_condition f (record { name = key; operator = "$eq"; value = v; values = nil }))

  -- `parse` is the recursive call at the next depth.
  module _ (parse : Fields F → Outcome (Option (Filter F))) where
    unfoldable pub parse_ands : Values F → Filter F → Outcome (Filter F)
    unfolding merge_and
    parse_ands nil f = done f
    parse_ands (cons (obj fs) rest) f = parse fs >>= λ sub. merge_and f sub >>= parse_ands rest
    parse_ands (cons _ rest) f = failed and_not_object

    unfoldable pub parse_ors : Values F → Filter F → Outcome (Filter F)
    unfolding merge_or
    parse_ors nil f = done f
    parse_ors (cons (obj fs) rest) f = parse fs >>= λ sub. merge_or f sub >>= parse_ors rest
    parse_ors (cons _ rest) f = failed or_not_object

    unfoldable pub parse_and : Value F → Filter F → Outcome (Filter F)
    parse_and (arr vs) f = parse_ands vs f
    parse_and _ f = failed and_not_array

    unfoldable pub parse_or : Value F → Filter F → Outcome (Filter F)
    parse_or (arr vs) f = parse_ors vs f
    parse_or _ f = failed or_not_array

    unfoldable pub parse_entry : String → Value F → Filter F → Outcome (Filter F)
    unfolding parse_condition
    parse_entry key val f =
        if key == "$and"
        then parse_and val f
        else if key == "$or"
        then parse_or val f
        else parse_condition key val f

    unfoldable pub parse_entries : Fields F → Filter F → Outcome (Filter F)
    parse_entries end f = done f
    parse_entries (field key val rest) f = parse_entry key val f >>= parse_entries rest

  -- `none` is the nil filter of an empty map.
  unfoldable pub parse_filter_depth : ℕ → Fields F → Outcome (Option (Filter F))
  parse_filter_depth max_depth end = done none
  parse_filter_depth zero (field key val rest) = failed too_deep
  parse_filter_depth (suc depth) (field key val rest) =
      parse_entries (parse_filter_depth depth) (field key val rest) (filter [] no_filters) >>= λ f.
      done (some f)

  unfoldable pub parse_filter : Fields F → Outcome (Option (Filter F))
  parse_filter raw = parse_filter_depth 10 raw
