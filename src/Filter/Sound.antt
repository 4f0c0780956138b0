-- ===== src/Filter/Sound.antt =====
-- The parsed filter against the meaning of its document.
use magnitude.Common.{
  ℕ, zero, suc, ◌+◌, ◌≤◌, ◌≡◌, refl, sym, ap, ◌∙◌, Bool, true, ◌&&◌, ◌||◌, String, Option, some,
  List, [], leb, ◌==◌, string_keyed, nat_keyed, if◌then◌else◌, arith, Bool-cases, inl, inr,
}
use magnitude.Common.Dict.{Dict}
use magnitude.Filter.{
  Value, arr, obj, Values, nil, cons, Fields, end, field, FieldFilter, Filter, filter, Filters,
  no_filters, more, match_all, match, match_or, match_any,
}
use magnitude.Filter.Parse.{
  Outcome, done, ◌>>=◌, append_filters, parse_ands, parse_ors, parse_and, parse_or, parse_entry,
  parse_entries, parse_filter_depth, parse_filter,
}
use magnitude.Filter.Meaning.{
  holds_condition, holds, holds_every, holds_some, every, any, ors, ors_value, ors_values,
  is_filled, is_plain, plain_value, plain_values, apart_value, apart_values, is_some_fields, fits,
  fits_condition, fits_array, fits_values,
}
use magnitude.Filter.Grows.{
  count, leb-le, and_both, fits_obj, fits_arr, fits_value_ten, append_none, append_append, Grows,
  merged, grown, regrow, still, condition_lem, Parses,
}

module _ {F : Type 0} (feq flt : F → F → Bool) (sprint : Value F → String)
    (meta : Dict String (Value F)) where
  module _ (depth : ℕ) (parse : Fields F → Outcome (Option (Filter F)))
      (works : Parses feq flt sprint meta depth parse) where
    ands_lem :
        (vs : Values F) (f : Filter F)
        → fits_values depth vs ≡ true
        → plain_values vs ≡ true
        → count f + ors_values vs ≤ 1
        → (g : Filter F) × (parse_ands parse vs f ≡ done g)
          × Grows feq flt sprint meta f (ors_values vs) (every feq flt sprint meta vs) g
    unfolding parse_ands fits is_plain ors holds
    ands_lem nil f fit plain le = (f, refl, still feq flt sprint meta f)
    ands_lem (cons (obj fs) vs) f fit plain le =
        let (fit_fs, fit_vs) = and_both _ _ fit in
        let (plain_fs, plain_vs) = and_both _ _ plain in
        let (sub, e, c, m) = works fs fit_fs plain_fs (omega arith) in
        let (g, d, grows) = merged feq flt sprint meta f sub (omega arith) in
        let (h, k, onward) = ands_lem vs g fit_vs plain_vs (omega (arith, grows.counted)) in
        (
          h,
          rw (e, ◌>>=◌, d, ◌>>=◌) k,
          grown feq flt sprint meta (regrow feq flt sprint meta grows c m) onward,
        )
    ands_lem (cons v vs) f fit plain le = let (fs, e) = fits_obj depth v (and_both _ _ fit).0 in cc

    ors_lem :
        (vs : Values F) (a : List (FieldFilter F)) (o : Filters F)
        → fits_values depth vs ≡ true
        → apart_values vs ≡ true
        → (subs : Filters F) × (parse_ors parse vs (filter a o)
            ≡ done (filter a (append_filters o subs)))
          × (match_any feq flt sprint subs meta ≡ any feq flt sprint meta vs)
          × (count (filter a subs) ≡ (if is_filled (arr vs) then 1 else 0))
    unfolding parse_ors fits is_plain holds match
    ors_lem nil a o fit apart = (
      no_filters,
      ap (λ x. done (filter a x)) (sym (append_none feq flt sprint meta o)),
      refl,
      refl,
    )
    ors_lem (cons (obj fs) vs) a o fit apart =
        let (fit_fs, fit_vs) = and_both _ _ fit in
        let (apart_fs, apart_vs) = and_both _ _ apart in
        let (few, plain) = and_both (leb (ors fs) 1) (is_plain fs) apart_fs in
        let (sub, e, c, m) = works fs fit_fs plain (leb-le (ors fs) 1 few) in
        let (subs, k, any_of, full) =
          ors_lem vs a (append_filters o (more sub no_filters)) fit_vs apart_vs in
        (
          more sub subs,
          rw (e, ◌>>=◌)
              (k
                ∙ ap (λ x. done (filter a x))
                    (append_append feq flt sprint meta o (more sub no_filters) subs)),
          ground (arith, m, any_of),
          refl,
        )
    ors_lem (cons v vs) a o fit apart = let (fs, e) = fits_obj depth v (and_both _ _ fit).0 in cc

    and_entry :
        (val : Value F) (f : Filter F)
        → fits_array depth val ≡ true
        → plain_value val ≡ true
        → count f + ors_value val ≤ 1
        → (g : Filter F) × (parse_and parse val f ≡ done g)
          × Grows feq flt sprint meta f (ors_value val) (holds_every feq flt sprint meta val) g
    unfolding parse_and fits is_plain ors holds
    and_entry (arr vs) f fit plain le = ands_lem vs f fit plain le
    and_entry val f fit plain le = let (vs, e) = fits_arr depth val fit in cc

    full_or :
        (a : List (FieldFilter F)) (subs : Filters F)
        → count (filter a subs) ≡ 1
        → match_or feq flt sprint subs meta ≡ match_any feq flt sprint subs meta
    unfolding match
    full_or a no_filters full = absurd (omega arith)
    full_or a (more f fs) full = refl

    or_entry :
        (val : Value F) (f : Filter F)
        → fits_array depth val ≡ true
        → (is_filled val && apart_value val) ≡ true
        → count f + 1 ≤ 1
        → (g : Filter F) × (parse_or parse val f ≡ done g)
          × Grows feq flt sprint meta f 1 (holds_some feq flt sprint meta val) g
    unfolding parse_or fits is_plain holds match
    or_entry (arr vs) (filter a no_filters) fit plain le =
        let (filled, apart) = and_both (is_filled (arr vs)) (apart_values vs) plain in
        let (subs, e, any_of, full) = ors_lem vs a no_filters fit apart in
        let one : count (filter a subs) ≡ 1 = full ∙ ap (λ b. if b then 1 else 0) filled in
        (
          filter a subs,
          e,
          record { counted = one; matched = ground (arith, full_or a subs one, any_of) },
        )
    or_entry (arr vs) (filter a (more f fs)) fit plain le = absurd (omega arith)
    or_entry val f fit plain le = let (vs, e) = fits_arr depth val fit in cc

    entry_lem :
        (key : String) (val : Value F) (f : Filter F)
        → (if key == "$and" || key == "$or" then fits_array depth val else fits_condition val)
          ≡ true
        → (if key == "$and"
            then plain_value val
            else if key == "$or"
            then is_filled val && apart_value val
            else true)
          ≡ true
        → count f + (if key == "$and" then ors_value val else if key == "$or" then 1 else 0) ≤ 1
        → (g : Filter F) × (parse_entry parse key val f ≡ done g)
          × Grows feq flt sprint meta f
              (if key == "$and" then ors_value val else if key == "$or" then 1 else 0)
              (if key == "$and"
                then holds_every feq flt sprint meta val
                else if key == "$or"
                then holds_some feq flt sprint meta val
                else holds_condition feq flt sprint meta key val)
              g
    unfolding parse_entry
    entry_lem key val f fit plain le = elim (Bool-cases (key == "$and")) [
      | inl conj ↦
          rw (conj, parse_entry)
            (and_entry val f (rw conj at fit) (rw conj at plain) (rw conj at le))
      | inr other ↦ elim (Bool-cases (key == "$or")) [
        | inl disj ↦
            rw (other, disj, parse_entry)
              (or_entry val f (rw (other, disj) at fit) (rw (other, disj) at plain)
                (rw (other, disj) at le))
        | inr name ↦
            rw (other, name, parse_entry)
              (condition_lem feq flt sprint meta key val f (rw (other, name) at fit))
      ]
    ]

    entries_lem :
        (fs : Fields F) (f : Filter F)
        → fits depth fs ≡ true
        → is_plain fs ≡ true
        → count f + ors fs ≤ 1
        → (g : Filter F) × (parse_entries parse fs f ≡ done g)
          × Grows feq flt sprint meta f (ors fs) (holds feq flt sprint meta fs) g
    unfolding parse_entries fits is_plain ors holds
    entries_lem end f fit plain le = (f, refl, still feq flt sprint meta f)
    entries_lem (field key val rest) f fit plain le =
        let (fit_val, fit_rest) = and_both _ _ fit in
        let (plain_val, plain_rest) = and_both _ _ plain in
        let (g, e, grows) = entry_lem key val f fit_val plain_val (omega arith) in
        let (h, d, onward) =
          entries_lem rest g fit_rest plain_rest (omega (arith, grows.counted)) in
        (h, rw (e, ◌>>=◌) d, grown feq flt sprint meta grows onward)

  depth_lem : (depth : ℕ) → Parses feq flt sprint meta depth (parse_filter_depth depth)
  unfolding parse_filter_depth fits match holds match_all
  depth_lem zero fs fit plain le = cc
  depth_lem (suc depth) end fit plain le = cc
  depth_lem (suc depth) (field key val rest) fit plain le =
      let (g, e, grows) =
        entries_lem depth (parse_filter_depth depth) (depth_lem depth) (field key val rest)
          (filter [] no_filters) fit plain (omega arith) in
      (g, rw (e, ◌>>=◌) refl, omega (arith, grows.counted), grows.matched)

-- A non-empty document whose `$and` and `$or` have arrays of non-empty objects, whose `$in` and
-- `$nin` have arrays and which nests objects at most ten deep, with no empty `$or` and at most one
-- `$or` at a time, is parsed, and the parsed filter matches exactly the metadata of which the
-- document holds.
pub parse_filter-match :
    {F : Type 0} (feq flt : F → F → Bool) (sprint : Value F → String) (raw : Fields F)
    (meta : Dict String (Value F))
    → (is_some_fields raw && fits 9 raw) ≡ true
    → is_plain raw ≡ true
    → ors raw ≤ 1
    → (f : Filter F) × (parse_filter raw ≡ done (some f))
      × (match feq flt sprint f meta ≡ holds feq flt sprint meta raw)
unfolding parse_filter
parse_filter-match feq flt sprint raw meta fit plain le =
    let (f, e, c, m) = depth_lem feq flt sprint meta 10 raw (fits_value_ten raw fit) plain le in
    (f, e, m)
