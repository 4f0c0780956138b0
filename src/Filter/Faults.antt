-- ===== src/Filter/Faults.antt =====
-- Documents that the parser of internal/metadata/filter.go reads otherwise than they are meant.
use magnitude.Common.{ℕ, suc, ◌≡◌, refl, Bool, ◌||◌, String, some, [], string_keyed, arith}
use magnitude.Common.Dict.{Dict}
use magnitude.Filter.{
  Value, arr, obj, Values, nil, cons, Fields, end, field, Filter, filter, Filters, no_filters, more,
  match, match_all,
}
use magnitude.Filter.Parse.{
  done, panicked, ◌>>=◌, append_filters, merge_and, merge_or, parse_ands, parse_ors, parse_and,
  parse_or, parse_entry, parse_entries, parse_filter_depth, parse_filter,
}

-- A document whose first entry is an `$and` or an `$or` that begins with an empty object makes the
-- parser panic.
pub empty_object_panics :
    {F : Type 0} (vs : Values F) (rest : Fields F)
    → (parse_filter (field "$and" (arr (cons (obj end) vs)) rest) ≡ panicked)
      × (parse_filter (field "$or" (arr (cons (obj end) vs)) rest) ≡ panicked)
unfolding parse_filter parse_filter_depth parse_entries parse_entry parse_and parse_or parse_ands
    parse_ors
empty_object_panics vs rest = (refl, refl)

-- `{"$or": [x, y]}`
abbrev pub either : {F : Type 0} → Fields F → Fields F → Fields F
either x y = field "$or" (arr (cons (obj x) (cons (obj y) nil))) end

-- `{"$and": [x, y]}`
abbrev pub both : {F : Type 0} → Fields F → Fields F → Fields F
both x y = field "$and" (arr (cons (obj x) (cons (obj y) nil))) end

either_lem :
    {F : Type 0} (depth : ℕ) (x y : Fields F) (a b : Filter F)
    → parse_filter_depth depth x ≡ done (some a)
    → parse_filter_depth depth y ≡ done (some b)
    → parse_filter_depth (suc depth) (either x y)
      ≡ done (some (filter [] (more a (more b no_filters))))
unfolding parse_entries parse_entry parse_or parse_ors merge_or
either_lem depth x y a b p q = unfold parse_filter_depth in rw (p, q, ◌>>=◌) refl

both_lem :
    {F : Type 0} (depth : ℕ) (x y : Fields F) (o p : Filters F)
    → parse_filter_depth depth x ≡ done (some (filter [] o))
    → parse_filter_depth depth y ≡ done (some (filter [] p))
    → parse_filter_depth (suc depth) (both x y) ≡ done (some (filter [] (append_filters o p)))
unfolding parse_entries parse_entry parse_and parse_ands merge_and
both_lem depth x y o p u v = unfold parse_filter_depth in rw (u, v, ◌>>=◌) refl

module _ {F : Type 0} (feq flt : F → F → Bool) (sprint : Value F → String) where
  -- For four documents that are parsed at depth 8, an `$and` of two `$or`s of them is parsed to a filter
  -- that matches as soon as one of the four does.
  pub alternatives_merged :
      (w x y z : Fields F) (a b c d : Filter F) (meta : Dict String (Value F))
      → parse_filter_depth 8 w ≡ done (some a)
      → parse_filter_depth 8 x ≡ done (some b)
      → parse_filter_depth 8 y ≡ done (some c)
      → parse_filter_depth 8 z ≡ done (some d)
      → (f : Filter F) × (parse_filter (both (either w x) (either y z)) ≡ done (some f))
        × (match feq flt sprint f meta ≡ (
            match feq flt sprint a meta
            || match feq flt sprint b meta
            || match feq flt sprint c meta
            || match feq flt sprint d meta))
  unfolding parse_filter match match_all
  alternatives_merged w x y z a b c d meta p q r s = (
    filter [] (more a (more b (more c (more d no_filters)))),
    both_lem 9 (either w x) (either y z) (more a (more b no_filters)) (more c (more d no_filters))
        (either_lem 8 w x a b p q) (either_lem 8 y z c d r s),
    ground arith,
  )
