-- ===== src/Bitmap/Resolve.antt =====
-- A filter: the bitmap that it resolves to against the metadata of a node.
use magnitude.Common.{
  ℕ, ◌≡◌, refl, sym, ap, subst, ◌∙◌, Bool, true, false, ◌&&◌, ◌||◌, String, Option, none, some,
  List, [], ◌∷◌, ltb, string_keyed, if◌then◌else◌, arith, Option-cases, inl, inr,
}
use magnitude.Common.Dict
use magnitude.Common.Dict.{Dict}
use magnitude.Filter.{
  Value, null, num, str, boolean, arr, obj, FieldFilter, Filter, filter, Filters, no_filters, more,
  match, match_or, match_any,
}
use magnitude.Bitmap.{Bitsets, MetadataBitmapIndex, entries_of, sort_all}
use magnitude.Bitmap.Query.{
  all_size, Ands, empty_bitmap, met, resolve_ands, join_option, meet_option, resolve_inner,
  resolve_ors, resolve,
}
use magnitude.Bitmap.Entries.{
  any_entry, IsOrder, IsSorted, any_entry-sort, sort-IsSorted, lookup-sort_all,
}
use magnitude.Bitmap.Stored.{any_entry_lem, numbers, any_float}
use magnitude.Bitmap.Reflects.{bit_of, Reflects}
use magnitude.Bitmap.Compare.{passes, Prints}
use magnitude.Bitmap.Ranges.{Knows}
use magnitude.Bitmap.Conditions.{
  is_blank, IsFit, AllFit, selects, ands_select, is_some, is_done, resolve_ands_lem, first_done,
}

or_if :
    {a c m : Bool} (b d : Bool) → a ≡ (b || c) → c ≡ m → (a || d) ≡ (b || (if m then true else d))
or_if b d h g = ground (arith, h, g)

module _ (bitsets : Bitsets) {F : Type 0} (feq flt : F → F → Bool) (sprint : Value F → String) where
  open bitsets use {BitSet}

  module _ (idx : MetadataBitmapIndex F BitSet) (n : ℕ) (fields : Dict String (Value F))
      (order : IsOrder flt) (prints : Prints feq flt sprint)
      (k : Knows bitsets feq flt sprint idx n fields) where
    ors_some :
        (fs : Filters F) (bm : BitSet)
        → is_some bitsets feq flt sprint (resolve_ors bitsets feq flt sprint idx fs (some bm))
          ≡ true
    unfolding resolve_inner
    ors_some no_filters bm = refl
    ors_some (more f fs) bm = elim (Option-cases (resolve_inner bitsets feq flt sprint idx f)) [
      | inl nothing ↦ rw nothing (ors_some fs bm)
      | inr (b, found) ↦ rw found (ors_some fs (bitsets.union bm b))
    ]

    meet_option_some :
        (o p : Option BitSet)
        → (is_some bitsets feq flt sprint o || is_some bitsets feq flt sprint p) ≡ true
        → is_some bitsets feq flt sprint (meet_option bitsets feq flt sprint o p) ≡ true
    meet_option_some none none h = cc
    meet_option_some none (some b) h = refl
    meet_option_some (some a) none h = refl
    meet_option_some (some a) (some b) h = refl

    meet_option_lem :
        (o p : Option BitSet)
        → selects bitsets feq flt sprint (meet_option bitsets feq flt sprint o p) n
          ≡ (selects bitsets feq flt sprint o n && selects bitsets feq flt sprint p n)
    meet_option_lem none none = refl
    meet_option_lem none (some b) = refl
    meet_option_lem (some a) none = ground arith
    meet_option_lem (some a) (some b) = bitsets.test-intersection a b n

    join_option_lem :
        (o p : Option BitSet)
        → bit_of bitsets feq flt sprint (join_option bitsets feq flt sprint o p) n
          ≡ (bit_of bitsets feq flt sprint o n || bit_of bitsets feq flt sprint p n)
    join_option_lem o none = ground arith
    join_option_lem none (some b) = refl
    join_option_lem (some a) (some b) = bitsets.test-union a b n

    ors_filled :
        (f : Filter F) (fs : Filters F)
        → is_some bitsets feq flt sprint (resolve_inner bitsets feq flt sprint idx f) ≡ true
        → is_some bitsets feq flt sprint (resolve_ors bitsets feq flt sprint idx (more f fs) none)
          ≡ true
    unfolding resolve_inner
    ors_filled f fs h = elim (Option-cases (resolve_inner bitsets feq flt sprint idx f)) [
      | inl nothing ↦ absurd (ground (arith, h, ap (is_some bitsets feq flt sprint) nothing))
      | inr (bm, found) ↦ rw found (ors_some fs bm)
    ]

    -- The end of `resolve_inner`.
    abbrev finish : Ands BitSet → Option BitSet → Option BitSet
    finish empty_bitmap o = some (bitsets.new 0)
    finish (met result) o = meet_option bitsets feq flt sprint result o

    finish_lem :
        (a : Ands BitSet) (o : Option BitSet)
        → selects bitsets feq flt sprint (finish a o) n
          ≡ (ands_select bitsets feq flt sprint a n && selects bitsets feq flt sprint o n)
    finish_lem empty_bitmap o = bitsets.test-new 0 n
    finish_lem (met result) o = meet_option_lem result o

    finish_some :
        (a : Ands BitSet) (o : Option BitSet)
        → (is_done bitsets feq flt sprint a || is_some bitsets feq flt sprint o) ≡ true
        → is_some bitsets feq flt sprint (finish a o) ≡ true
    finish_some empty_bitmap o h = refl
    finish_some (met result) o h = meet_option_some result o h

    inner_lem :
        (conditions : List (FieldFilter F)) (alternatives : Filters F)
        → resolve_inner bitsets feq flt sprint idx (filter conditions alternatives)
          ≡ finish
              (resolve_ands bitsets feq flt sprint idx conditions none)
              (resolve_ors bitsets feq flt sprint idx alternatives none)
    unfolding resolve_inner
    inner_lem conditions alternatives =
        let o = resolve_ors bitsets feq flt sprint idx alternatives none in
        elim (resolve_ands bitsets feq flt sprint idx conditions none)
          as (λ a.
            (elim a [
              | empty_bitmap ↦ some (bitsets.new 0)
              | met result ↦ meet_option bitsets feq flt sprint result o
            ])
            ≡ finish a o) [ empty_bitmap ↦ refl | met result ↦ refl ]

    resolve_inner_some :
        (f : Filter F)
        → is_blank f ≡ false
        → IsFit fields f
        → is_some bitsets feq flt sprint (resolve_inner bitsets feq flt sprint idx f) ≡ true
    unfolding resolve_inner resolve_ands IsFit
    resolve_inner_some (filter [] no_filters) b fit = cc
    resolve_inner_some (filter [] (more f fs)) b fit =
        ap (is_some bitsets feq flt sprint) (inner_lem [] (more f fs))
        ∙ finish_some (met none) (resolve_ors bitsets feq flt sprint idx (more f fs) none)
            (ors_filled f fs (resolve_inner_some f fit.1.0.0 fit.1.0.1))
    resolve_inner_some (filter (ff ∷ ffs) fs) b fit =
        ap (is_some bitsets feq flt sprint) (inner_lem (ff ∷ ffs) fs)
        ∙ finish_some (resolve_ands bitsets feq flt sprint idx (ff ∷ ffs) none)
            (resolve_ors bitsets feq flt sprint idx fs none)
            (ground (arith, first_done bitsets feq flt sprint idx n fields order prints k ff ffs))

    selects_some :
        (o : Option BitSet)
        → is_some bitsets feq flt sprint o ≡ true
        → selects bitsets feq flt sprint o n ≡ bit_of bitsets feq flt sprint o n
    selects_some none h = cc
    selects_some (some bm) h = refl

    joined :
        (f : Filter F) (result : Option BitSet)
        → is_blank f ≡ false
        → IsFit fields f
        → bit_of bitsets feq flt sprint
            (join_option bitsets feq flt sprint result (resolve_inner bitsets feq flt sprint idx f))
            n
          ≡ (bit_of bitsets feq flt sprint result n
              || selects bitsets feq flt sprint (resolve_inner bitsets feq flt sprint idx f) n)
    joined f result b fit =
        join_option_lem result (resolve_inner bitsets feq flt sprint idx f)
        ∙ ap (λ c. bit_of bitsets feq flt sprint result n || c)
            (sym (
              selects_some (resolve_inner bitsets feq flt sprint idx f)
                (resolve_inner_some f b fit)))

    mutual
      unfolding match IsFit resolve_inner

      resolve_inner_lem :
          (f : Filter F)
          → IsFit fields f
          → selects bitsets feq flt sprint (resolve_inner bitsets feq flt sprint idx f) n
            ≡ match feq flt sprint f fields
      resolve_inner_lem (filter conditions alternatives) fit =
          ap (λ o. selects bitsets feq flt sprint o n) (inner_lem conditions alternatives)
          ∙ finish_lem (resolve_ands bitsets feq flt sprint idx conditions none)
              (resolve_ors bitsets feq flt sprint idx alternatives none)
          ∙ ground (
            arith,
            resolve_ands_lem bitsets feq flt sprint idx n fields order prints k conditions none
                fit.0,
            resolve_or_lem alternatives fit.1,
          )

      resolve_or_lem :
          (fs : Filters F)
          → AllFit fields fs
          → selects bitsets feq flt sprint (resolve_ors bitsets feq flt sprint idx fs none) n
            ≡ match_or feq flt sprint fs fields
      resolve_or_lem no_filters fit = refl
      resolve_or_lem (more f fs) fit =
          selects_some (resolve_ors bitsets feq flt sprint idx (more f fs) none)
            (ors_filled f fs (resolve_inner_some f fit.0.0 fit.0.1))
          ∙ resolve_ors_lem fs
              (join_option bitsets feq flt sprint none (resolve_inner bitsets feq flt sprint idx f))
              fit.1
          ∙ or_if false (match_any feq flt sprint fs fields) (joined f none fit.0.0 fit.0.1)
              (resolve_inner_lem f fit.0.1)

      resolve_ors_lem :
          (fs : Filters F) (result : Option BitSet)
          → AllFit fields fs
          → bit_of bitsets feq flt sprint (resolve_ors bitsets feq flt sprint idx fs result) n
            ≡ (bit_of bitsets feq flt sprint result n || match_any feq flt sprint fs fields)
      resolve_ors_lem no_filters result fit = ground arith
      resolve_ors_lem (more f fs) result fit =
          resolve_ors_lem fs
            (join_option bitsets feq flt sprint result (resolve_inner bitsets feq flt sprint idx f))
            fit.1
          ∙ or_if (bit_of bitsets feq flt sprint result n) (match_any feq flt sprint fs fields)
              (joined f result fit.0.0 fit.0.1) (resolve_inner_lem f fit.0.1)

  any_float_lem : (p : F → Bool) (o : Option (Value F)) → any_float p (numbers o) ≡ passes p o
  any_float_lem p none = refl
  any_float_lem p (some (num x)) = ground arith
  any_float_lem p (some null) = refl
  any_float_lem p (some (str w)) = refl
  any_float_lem p (some (boolean w)) = refl
  any_float_lem p (some (arr w)) = refl
  any_float_lem p (some (obj w)) = refl

  sorted-Knows :
      (idx : MetadataBitmapIndex F BitSet) (meta : ℕ → Dict String (Value F)) (n : ℕ)
      → IsOrder flt
      → Reflects bitsets feq flt sprint idx meta
      → ltb n (all_size bitsets feq flt sprint idx) ≡ true
      → Knows bitsets feq flt sprint
          (record idx { numeric_sorted = sort_all flt idx.numeric_sorted })
          n
          (meta n)
  unfolding all_size
  sorted-Knows idx meta n order r h = record {
    known = h;
    marked = λ name v q. r.marked name v n q;
    numbered = λ name p q.
        let es = entries_of (Dict.lookup name idx.numeric_sorted) in
        ap (λ l. any_entry p n l) (lookup-sort_all flt name idx.numeric_sorted)
        ∙ any_entry-sort flt p n es
        ∙ any_entry_lem p n es
        ∙ ap (λ l. any_float p l) (r.stored name n q)
        ∙ any_float_lem p (Dict.lookup name (meta n));
    sorted = λ name.
        subst (λ l. IsSorted flt l) (sym (lookup-sort_all flt name idx.numeric_sorted))
          (sort-IsSorted flt order (entries_of (Dict.lookup name idx.numeric_sorted)));
  }

  -- Of a node below the size of the whole bitmap, on an index that reflects the metadata, the bitmap of
  -- a filter has the bit if and only if `Match` accepts its metadata; nil stands for all. The filter's
  -- fields have no NUL, its ranges are between numbers on that node, no alternative is blank, `<` is
  -- an order, and `%v` tells apart what `==` does.
  pub resolve-match :
      (idx : MetadataBitmapIndex F BitSet) (meta : ℕ → Dict String (Value F)) (n : ℕ) (f : Filter F)
      → IsOrder flt
      → Prints feq flt sprint
      → Reflects bitsets feq flt sprint idx meta
      → ltb n (all_size bitsets feq flt sprint idx) ≡ true
      → IsFit (meta n) f
      → selects bitsets feq flt sprint ((resolve bitsets feq flt sprint idx (some f)).1) n
        ≡ match feq flt sprint f (meta n)
  unfolding resolve
  resolve-match idx meta n f order prints r h fit =
      resolve_inner_lem (record idx { numeric_sorted = sort_all flt idx.numeric_sorted }) n (meta n)
        order prints (sorted-Knows idx meta n order r h) f fit
