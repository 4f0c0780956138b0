-- ===== src/Bitmap/Conditions.antt =====
-- The conditions of a filter: the bitmap that their loop leaves against the metadata of a node.
use magnitude.Common.{
  ℕ, ◌≡◌, refl, ap, ◌∙◌, Bool, true, false, ◌&&◌, String, Option, none, some, List, [], ◌∷◌,
  string_keyed, arith, Option-cases, inl, inr,
}
use magnitude.Common.Dict
use magnitude.Common.Dict.{Dict}
use magnitude.Filter.{Value, FieldFilter, Filter, filter, Filters, no_filters, more, match_all}
use magnitude.Bitmap.{Bitsets, MetadataBitmapIndex}
use magnitude.Bitmap.Query.{resolve_field_filter, meet, Ands, empty_bitmap, met, resolve_ands}
use magnitude.Bitmap.Keys.{NoNul}
use magnitude.Bitmap.Entries.{IsOrder}
use magnitude.Bitmap.Reflects.{bit_of}
use magnitude.Bitmap.Compare.{is_comparable, Prints}
use magnitude.Bitmap.Ranges.{Knows}
use magnitude.Bitmap.Field.{resolve_field_filter_lem}

module _ {F : Type 0} where
  abbrev pub is_blank : Filter F → Bool
  is_blank (filter [] no_filters) = true
  is_blank f = false

  -- Every condition can be decided on the fields of a node, and no alternative is blank.
  unfoldable pub ConditionsFit : Dict String (Value F) → List (FieldFilter F) → Type 0
  ConditionsFit fields [] = Unit
  ConditionsFit fields (ff ∷ ffs) =
      (NoNul ff.name × (is_comparable ff (Dict.lookup ff.name fields) ≡ true))
      × ConditionsFit fields ffs

  unfoldable mutual
    unfolding ConditionsFit

    pub IsFit : Dict String (Value F) → Filter F → Type 0
    IsFit fields (filter conditions alternatives) =
        ConditionsFit fields conditions × AllFit fields alternatives

    pub AllFit : Dict String (Value F) → Filters F → Type 0
    AllFit fields no_filters = Unit
    AllFit fields (more f fs) = ((is_blank f ≡ false) × IsFit fields f) × AllFit fields fs

module _ (bitsets : Bitsets) {F : Type 0} (feq flt : F → F → Bool) (sprint : Value F → String) where
  open bitsets use {BitSet}

  -- What a bitmap lets through; nil is no filter.
  abbrev pub selects : Option BitSet → ℕ → Bool
  selects none n = true
  selects (some bm) n = bitsets.test bm n

  abbrev pub ands_select : Ands BitSet → ℕ → Bool
  ands_select empty_bitmap n = false
  ands_select (met result) n = selects result n

  abbrev pub is_some : Option BitSet → Bool
  is_some none = false
  is_some (some bm) = true

  -- A bitmap, and not nil, is left.
  abbrev pub is_done : Ands BitSet → Bool
  is_done empty_bitmap = true
  is_done (met result) = is_some result

  module _ (idx : MetadataBitmapIndex F BitSet) (n : ℕ) (fields : Dict String (Value F))
      (order : IsOrder flt) (prints : Prints feq flt sprint)
      (k : Knows bitsets feq flt sprint idx n fields) where
    meet_lem :
        (result : Option BitSet) (bm : BitSet)
        → bitsets.test (meet bitsets feq flt sprint result bm) n
          ≡ (selects result n && bitsets.test bm n)
    meet_lem none bm = refl
    meet_lem (some a) bm = bitsets.test-intersection a bm n

    -- `resolve_ands` after a condition.
    abbrev after : List (FieldFilter F) → Option BitSet → Option BitSet → Ands BitSet
    after ffs result none = empty_bitmap
    after ffs result (some bm) =
        resolve_ands bitsets feq flt sprint idx ffs (some (meet bitsets feq flt sprint result bm))

    after_lem :
        (ff : FieldFilter F) (ffs : List (FieldFilter F)) (result : Option BitSet)
        → resolve_ands bitsets feq flt sprint idx (ff ∷ ffs) result
          ≡ after ffs result (resolve_field_filter bitsets feq flt sprint idx ff)
    unfolding resolve_ands
    after_lem ff ffs result =
        elim (Option-cases (resolve_field_filter bitsets feq flt sprint idx ff)) [
          | inl nothing ↦ rw (resolve_ands, nothing) refl
          | inr (bm, found) ↦ rw (resolve_ands, found) refl
        ]

    pub resolve_ands_lem :
        (ffs : List (FieldFilter F)) (result : Option BitSet)
        → ConditionsFit fields ffs
        → ands_select (resolve_ands bitsets feq flt sprint idx ffs result) n
          ≡ (selects result n && match_all feq flt sprint ffs fields)
    unfolding resolve_ands match_all ConditionsFit
    resolve_ands_lem [] result fit = ground arith
    resolve_ands_lem (ff ∷ ffs) result fit =
        let one =
          resolve_field_filter_lem bitsets feq flt sprint idx n fields ff order prints fit.0.0 k
            fit.0.1 in
        let step = ap (λ a. ands_select a n) (after_lem ff ffs result) in
        elim (Option-cases (resolve_field_filter bitsets feq flt sprint idx ff)) [
          | inl nothing ↦
              step
              ∙ ap (λ o. ands_select (after ffs result o) n) nothing
              ∙ ground (arith, one, ap (λ o. bit_of bitsets feq flt sprint o n) nothing)
          | inr (bm, found) ↦
              step
              ∙ ap (λ o. ands_select (after ffs result o) n) found
              ∙ resolve_ands_lem ffs (some (meet bitsets feq flt sprint result bm)) fit.1
              ∙ ground (
                arith,
                one,
                ap (λ o. bit_of bitsets feq flt sprint o n) found,
                meet_lem result bm,
              )
        ]

    ands_done :
        (ffs : List (FieldFilter F)) (bm : BitSet)
        → is_done (resolve_ands bitsets feq flt sprint idx ffs (some bm)) ≡ true
    unfolding resolve_ands
    ands_done [] bm = refl
    ands_done (ff ∷ ffs) bm =
        ap is_done (after_lem ff ffs (some bm))
        ∙ elim (Option-cases (resolve_field_filter bitsets feq flt sprint idx ff)) [
          | inl nothing ↦ ap (λ o. is_done (after ffs (some bm) o)) nothing
          | inr (b, found) ↦
              ap (λ o. is_done (after ffs (some bm) o)) found
              ∙ ands_done ffs (bitsets.intersection bm b)
        ]

    pub first_done :
        (ff : FieldFilter F) (ffs : List (FieldFilter F))
        → is_done (resolve_ands bitsets feq flt sprint idx (ff ∷ ffs) none) ≡ true
    first_done ff ffs =
        ap is_done (after_lem ff ffs none)
        ∙ elim (Option-cases (resolve_field_filter bitsets feq flt sprint idx ff)) [
          | inl nothing ↦ ap (λ o. is_done (after ffs none o)) nothing
          | inr (b, found) ↦ ap (λ o. is_done (after ffs none o)) found ∙ ands_done ffs b
        ]
