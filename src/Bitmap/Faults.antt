-- ===== src/Bitmap/Faults.antt =====
-- Ranges over texts, which `Match` decides and the bitmaps do not.
use Prim.Native.Nat.{gt}
use Prim.Native.String.{compare}
use magnitude.Common.{
  ℕ, ◌≡◌, refl, ap, ◌∙◌, Bool, true, false, String, Option, none, some, [], ◌∷◌, length, ◌==◌,
  nat_keyed, string_keyed, Bool-cases, inl, inr,
}
use magnitude.Common.Dict
use magnitude.Common.Dict.{Dict}
use magnitude.Filter.{
  Value, str, nil, FieldFilter, filter, no_filters, compare_numeric, match_present, match_absent,
  match_field, match_all, match,
}
use magnitude.Bitmap.{Bitsets, MetadataBitmapIndex, entries_of, sort_all}
use magnitude.Bitmap.Query.{
  Ands, empty_bitmap, met, resolve_numeric_range, resolve_field_filter, resolve_ands, resolve_inner,
  resolve,
}
use magnitude.Bitmap.Conditions.{selects}

-- `{"name": {"$gt": "text"}}`
abbrev pub beyond : {F : Type 0} → String → String → FieldFilter F
beyond name text = record { name = name; operator = "$gt"; value = str text; values = nil }

module _ (bitsets : Bitsets) {F : Type 0} (feq flt : F → F → Bool) (sprint : Value F → String) where
  open bitsets use {BitSet}

  range_nothing :
      (idx : MetadataBitmapIndex F BitSet) (name text : String)
      → resolve_numeric_range bitsets feq flt sprint idx (beyond name text) ≡ none
  unfolding resolve_numeric_range
  range_nothing idx name text =
      elim (Bool-cases (length (entries_of (Dict.lookup name idx.numeric_sorted)) == 0)) [
        | inl h ↦ rw h refl
        | inr h ↦ rw h refl
      ]

  inner_nothing :
      (idx : MetadataBitmapIndex F BitSet) (name text : String)
      → resolve_inner bitsets feq flt sprint idx (filter (beyond name text ∷ []) no_filters)
        ≡ some (bitsets.new 0)
  unfolding resolve_inner resolve_ands resolve_field_filter
  inner_nothing idx name text =
      ap
        (λ o.
          elim (elim o as (λ x. Ands BitSet) [ none ↦ empty_bitmap | some bm ↦ met (some bm) ])
            as (λ a. Option BitSet) [ empty_bitmap ↦ some (bitsets.new 0) | met result ↦ result ])
        (range_nothing idx name text)

  match_above :
      (meta : Dict String (Value F)) (name held text : String)
      → Dict.lookup name meta ≡ some (str held)
      → compare (sprint (str held)) (sprint (str text)) ≡ gt
      → match_field feq flt sprint (beyond name text) meta ≡ true
  unfolding match_field match_present compare_numeric
  match_above meta name held text has above =
      ap
        (λ o. elim o as (λ x. Bool) [
          | none ↦ match_absent feq flt sprint "$gt"
          | some val ↦ match_present feq flt sprint "$gt" val (str text) nil
        ])
        has
      ∙ rw above refl

  -- Where a node has a text above the threshold of a `$gt` condition, `Match` accepts its metadata, and
  -- the bitmap of the condition does not have its bit.
  pub text_range_lost :
      (idx : MetadataBitmapIndex F BitSet) (n : ℕ) (meta : Dict String (Value F))
      (name held text : String)
      → Dict.lookup name meta ≡ some (str held)
      → compare (sprint (str held)) (sprint (str text)) ≡ gt
      → (match feq flt sprint (filter (beyond name text ∷ []) no_filters) meta ≡ true)
        × (selects bitsets feq flt sprint
              ((resolve bitsets feq flt sprint idx
                (some (filter (beyond name text ∷ []) no_filters))).1)
              n
            ≡ false)
  unfolding match match_all resolve
  text_range_lost idx n meta name held text has above = (
    rw (match_above meta name held text has above) refl,
    ap (λ o. selects bitsets feq flt sprint o n)
          (inner_nothing (record idx { numeric_sorted = sort_all flt idx.numeric_sorted }) name
            text)
        ∙ bitsets.test-new 0 n,
  )
