-- ===== src/Bitmap/Field.antt =====
-- One condition: the bitmap that it resolves to against the metadata of a node.
use magnitude.Common.{
  ◌⊎◌, ℕ, ◌≡◌, refl, sym, ap, ◌∙◌, Bool, true, false, not, ◌&&◌, ◌||◌, String, Option, none, some,
  List, [], ◌∷◌, length, ◌==◌, nat_keyed, string_keyed, if◌then◌else◌, arith, Bool-cases, inl, inr,
}
use magnitude.Common.Dict
use magnitude.Common.Dict.{Dict}
use text.Mathlib.TextEquality.{eq_iff}
use magnitude.Filter.{
  Value, null, num, str, boolean, arr, obj, Values, nil, cons, FieldFilter, is_in, match_present,
  match_absent, match_field,
}
use magnitude.Bitmap.{Bitsets, NumericEntry, MetadataBitmapIndex, entries_of, composite_key}
use magnitude.Bitmap.Query.{
  all_nodes_bitmap, range_of, resolve_numeric_range, join, union_values, minus,
  resolve_field_filter,
}
use magnitude.Bitmap.Keys.{NoNul}
use magnitude.Bitmap.Entries.{any_entry, IsOrder, IsSorted}
use magnitude.Bitmap.Reflects.{bit_of, prints_as}
use magnitude.Bitmap.Compare.{
  is_range, is_number, number_if_any, is_comparable, passes, Prints, compare_equal_lem,
}
use magnitude.Bitmap.Ranges.{Knows, all_nodes_bitmap_lem, range_of_lem, range_of_absent}

module _ (bitsets : Bitsets) {F : Type 0} (feq flt : F → F → Bool) (sprint : Value F → String) where
  open bitsets use {BitSet}

  -- Nothing collected, of a field that the node does not have.
  module _ (idx : MetadataBitmapIndex F BitSet) (n : ℕ) (fields : Dict String (Value F)) where
    abbrev is_in_option : Option (Value F) → Values F → Bool
    is_in_option none vs = false
    is_in_option (some w) vs = is_in feq flt sprint w vs

    joined_lem :
        (result o : Option BitSet)
        → bit_of bitsets feq flt sprint
            (elim o [ none ↦ result | some bm ↦ some (join bitsets feq flt sprint result bm) ])
            n
          ≡ (bit_of bitsets feq flt sprint result n || bit_of bitsets feq flt sprint o n)
    joined_lem none none = refl
    joined_lem none (some bm) = refl
    joined_lem (some a) none = ground arith
    joined_lem (some a) (some bm) = bitsets.test-union a bm n

    minus_lem :
        (all : BitSet) (o : Option BitSet)
        → bitsets.test (minus bitsets feq flt sprint all o) n
          ≡ (bitsets.test all n && not (bit_of bitsets feq flt sprint o n))
    minus_lem all none = ground arith
    minus_lem all (some bm) = bitsets.test-difference all bm n

    is_in_option_lem :
        (o : Option (Value F)) (v : Value F) (vs : Values F)
        → Prints feq flt sprint
        → is_in_option o (cons v vs) ≡ (prints_as bitsets feq flt sprint o v || is_in_option o vs)
    unfolding is_in
    is_in_option_lem none v vs prints = refl
    is_in_option_lem (some w) v vs prints =
        ground (arith, compare_equal_lem feq flt sprint prints w v)

    is_in_option_nil : (o : Option (Value F)) → is_in_option o nil ≡ false
    unfolding is_in
    is_in_option_nil none = refl
    is_in_option_nil (some w) = refl

    union_values_lem :
        (name : String) (vs : Values F) (result : Option BitSet)
        → Prints feq flt sprint
        → NoNul name
        → Knows bitsets feq flt sprint idx n fields
        → bit_of bitsets feq flt sprint (union_values bitsets feq flt sprint idx name vs result) n
          ≡ (bit_of bitsets feq flt sprint result n || is_in_option (Dict.lookup name fields) vs)
    unfolding union_values
    union_values_lem name nil result prints p k =
        ground (arith, is_in_option_nil (Dict.lookup name fields))
    union_values_lem name (cons v vs) result prints p k =
        let found = Dict.lookup (composite_key sprint name v) idx.bits in
        let o = Dict.lookup name fields in
        ground (
          arith,
          union_values_lem name vs
              (elim found [
                | none ↦ result
                | some bm ↦ some (join bitsets feq flt sprint result bm)
              ])
              prints p k,
          joined_lem result found,
          k.marked name v p,
          is_in_option_lem o v vs prints,
        )

    ranged :
        (operator : String) (t : F) (values : Values F) (es : List (NumericEntry F))
        (o : Option (Value F))
        → IsOrder flt
        → IsSorted flt es
        → is_range operator ≡ true
        → number_if_any o ≡ true
        → ((p : F → Bool) → any_entry p n es ≡ passes p o)
        → bit_of bitsets feq flt sprint
            (if length es == 0 then none else range_of bitsets feq flt sprint idx operator t es)
            n
          ≡ elim o [
            | none ↦ match_absent feq flt sprint operator
            | some w ↦ match_present feq flt sprint operator w (num t) values
          ]
    unfolding match_absent any_entry
    ranged operator t values [] none order s r c h = ground (arith, r)
    ranged operator t values (e ∷ es) none order s r c h =
        ground
          (arith, r, range_of_absent bitsets feq flt sprint order idx t (e ∷ es) n operator s h)
    ranged operator t values [] (some (num x)) order s r c h =
        absurd (ground (arith, h (λ y. true)))
    ranged operator t values (e ∷ es) (some (num x)) order s r c h =
        ground (
          arith,
          range_of_lem bitsets feq flt sprint order idx t (e ∷ es) n operator x values s r h,
        )
    ranged operator t values es (some null) order s r c h = cc
    ranged operator t values es (some (str w)) order s r c h = cc
    ranged operator t values es (some (boolean w)) order s r c h = cc
    ranged operator t values es (some (arr w)) order s r c h = cc
    ranged operator t values es (some (obj w)) order s r c h = cc

    is_number_lem : (v : Value F) → is_number v ≡ true → (t : F) × (v ≡ num t)
    is_number_lem (num t) h = (t, refl)
    is_number_lem null h = cc
    is_number_lem (str w) h = cc
    is_number_lem (boolean w) h = cc
    is_number_lem (arr w) h = cc
    is_number_lem (obj w) h = cc

    numeric_range_lem :
        (ff : FieldFilter F)
        → IsOrder flt
        → NoNul ff.name
        → Knows bitsets feq flt sprint idx n fields
        → is_range ff.operator ≡ true
        → (is_number ff.value && number_if_any (Dict.lookup ff.name fields)) ≡ true
        → bit_of bitsets feq flt sprint (resolve_numeric_range bitsets feq flt sprint idx ff) n
          ≡ match_field feq flt sprint ff fields
    unfolding resolve_numeric_range match_field match_absent
    numeric_range_lem ff order p k r c =
        let (t, found) = is_number_lem ff.value (ground (arith, c)) in
        let es = entries_of (Dict.lookup ff.name idx.numeric_sorted) in
        rw found (
          ranged ff.operator t ff.values es (Dict.lookup ff.name fields) order (k.sorted ff.name) r
            (ground (arith, c)) (λ q. k.numbered ff.name q p))

    -- What the four operators without an order ask.
    abbrev asked : FieldFilter F → Bool → Bool → Bool
    asked ff same member =
        if ff.operator == "$eq"
        then same
        else if ff.operator == "$ne"
        then not same
        else if ff.operator == "$in"
        then member
        else not member

    listed_bit :
        (ff : FieldFilter F)
        → Prints feq flt sprint
        → NoNul ff.name
        → Knows bitsets feq flt sprint idx n fields
        → is_range ff.operator ≡ false
        → bit_of bitsets feq flt sprint (resolve_field_filter bitsets feq flt sprint idx ff) n
          ≡ asked ff
              (prints_as bitsets feq flt sprint (Dict.lookup ff.name fields) ff.value)
              (is_in_option (Dict.lookup ff.name fields) ff.values)
    unfolding resolve_field_filter
    listed_bit ff prints p k r =
        let all = all_nodes_bitmap bitsets feq flt sprint idx in
        let united = union_values bitsets feq flt sprint idx ff.name ff.values none in
        let same = Dict.lookup (composite_key sprint ff.name ff.value) idx.bits in
        ground (
          arith,
          r,
          k.marked ff.name ff.value p,
          union_values_lem ff.name ff.values none prints p k,
          all_nodes_bitmap_lem bitsets feq flt sprint idx n k.known,
          minus_lem all same,
          minus_lem all united,
        )

    four :
        (operator : String)
        → is_range operator ≡ false
        → (operator ≡ "$eq") ⊎ ((operator ≡ "$ne") ⊎ ((operator ≡ "$in") ⊎ (operator ≡ "$nin")))
    four operator r = ground (
      arith,
      r,
      eq_iff operator "$eq",
      eq_iff operator "$ne",
      eq_iff operator "$in",
      eq_iff operator "$nin",
    )

    listed_match :
        (ff : FieldFilter F) (o : Option (Value F))
        → Prints feq flt sprint
        → is_range ff.operator ≡ false
        → asked ff (prints_as bitsets feq flt sprint o ff.value) (is_in_option o ff.values)
          ≡ elim o [
            | none ↦ match_absent feq flt sprint ff.operator
            | some val ↦ match_present feq flt sprint ff.operator val ff.value ff.values
          ]
    unfolding match_present match_absent
    listed_match ff none prints r = elim (four ff.operator r) [
      | inl e ↦ rw e refl
      | inr (inl e) ↦ rw e refl
      | inr (inr (inl e)) ↦ rw e refl
      | inr (inr (inr e)) ↦ rw e refl
    ]
    listed_match ff (some w) prints r =
        let same = compare_equal_lem feq flt sprint prints w ff.value in
        elim (four ff.operator r) [
          | inl e ↦ rw e (sym same)
          | inr (inl e) ↦ rw e (sym (ap not same))
          | inr (inr (inl e)) ↦ rw e refl
          | inr (inr (inr e)) ↦ rw e refl
        ]

    pub resolve_field_filter_lem :
        (ff : FieldFilter F)
        → IsOrder flt
        → Prints feq flt sprint
        → NoNul ff.name
        → Knows bitsets feq flt sprint idx n fields
        → is_comparable ff (Dict.lookup ff.name fields) ≡ true
        → bit_of bitsets feq flt sprint (resolve_field_filter bitsets feq flt sprint idx ff) n
          ≡ match_field feq flt sprint ff fields
    unfolding resolve_field_filter match_field
    resolve_field_filter_lem ff order prints p k c = elim (Bool-cases (is_range ff.operator)) [
      | inl r ↦ ground (arith, r, numeric_range_lem ff order p k r (ground (arith, r, c)))
      | inr r ↦ listed_bit ff prints p k r ∙ listed_match ff (Dict.lookup ff.name fields) prints r
    ]
