-- ===== src/Bitmap/Ranges.antt =====
-- The bitmaps that ranges of sorted entries collect, and what an index knows of a node.
use magnitude.Common.{
  ℕ, ◌+◌, ◌≡◌, ◌∙◌, Bool, true, false, not, ◌||◌, String, List, [], ◌∷◌, take, drop, ltb, nat_keyed,
  string_keyed, arith,
}
use magnitude.Common.Dict
use magnitude.Common.Dict.{Dict}
use magnitude.Filter.{Value, num, Values, match_present, compare_numeric}
use magnitude.Bitmap.{Bitsets, NumericEntry, MetadataBitmapIndex, entries_of, composite_key}
use magnitude.Bitmap.Query.{
  search, all_size, all_nodes_bitmap, set_entries, collect_bitmap, range_of,
}
use magnitude.Bitmap.Keys.{NoNul}
use magnitude.Bitmap.Entries.{any_entry, IsOrder, IsSorted, GoesUp, any_entry-drop, any_entry-take}
use magnitude.Bitmap.Reflects.{bit_of, prints_as}
use magnitude.Bitmap.Compare.{is_range, passes}

module _ (bitsets : Bitsets) {F : Type 0} (feq flt : F → F → Bool) (sprint : Value F → String) where
  open bitsets use {BitSet}

  -- What an index with sorted entries knows of a node.
  pub record Knows (idx : MetadataBitmapIndex F BitSet) (n : ℕ) (fields : Dict String (Value F))
      : Type 0 where
    pub known : ltb n (all_size bitsets feq flt sprint idx) ≡ true
    pub marked :
        (name : String) (v : Value F)
        → NoNul name
        → bit_of bitsets feq flt sprint (Dict.lookup (composite_key sprint name v) idx.bits) n
          ≡ prints_as bitsets feq flt sprint (Dict.lookup name fields) v
    pub numbered :
        (name : String) (p : F → Bool)
        → NoNul name
        → any_entry p n (entries_of (Dict.lookup name idx.numeric_sorted))
          ≡ passes p (Dict.lookup name fields)
    pub sorted : (name : String) → IsSorted flt (entries_of (Dict.lookup name idx.numeric_sorted))

  pub all_nodes_bitmap_lem :
      (idx : MetadataBitmapIndex F BitSet) (n : ℕ)
      → ltb n (all_size bitsets feq flt sprint idx) ≡ true
      → bitsets.test (all_nodes_bitmap bitsets feq flt sprint idx) n ≡ true
  unfolding all_nodes_bitmap
  all_nodes_bitmap_lem idx n h =
      let size = all_size bitsets feq flt sprint idx in
      ground
        (arith, h, bitsets.test-flip_range (bitsets.new size) 0 size n, bitsets.test-new size n)

  set_entries_lem :
      (bm : BitSet) (es : List (NumericEntry F)) (n : ℕ)
      → bitsets.test (set_entries bitsets feq flt sprint bm es) n
        ≡ (bitsets.test bm n || any_entry (λ y. true) n es)
  unfolding set_entries any_entry
  set_entries_lem bm [] n = ground arith
  set_entries_lem bm (e ∷ es) n =
      ground
        (arith, set_entries_lem (bitsets.set bm e.node_idx) es n, bitsets.test-set bm e.node_idx n)

  collect_bitmap_lem :
      (idx : MetadataBitmapIndex F BitSet) (es : List (NumericEntry F)) (n : ℕ)
      → bitsets.test (collect_bitmap bitsets feq flt sprint idx es) n ≡ any_entry (λ y. true) n es
  unfolding collect_bitmap any_entry
  collect_bitmap_lem idx [] n = bitsets.test-new 0 n
  collect_bitmap_lem idx (e ∷ es) n = ground (
    arith,
    set_entries_lem (bitsets.new (idx.max_node_idx + 1)) (e ∷ es) n,
    bitsets.test-new (idx.max_node_idx + 1) n,
  )

  up_beyond : IsOrder flt → (t : F) → (x y : F) → flt y x ≡ false → flt t x ≡ true → flt t y ≡ true
  up_beyond order t x y h g = ground (arith, h, g, order.compares t y x)

  up_from :
      IsOrder flt
      → (t : F) → (x y : F) → flt y x ≡ false
      → not (flt x t) ≡ true
      → not (flt y t) ≡ true
  up_from order t x y h g = ground (arith, h, g, order.compares y x t)

  module _ (order : IsOrder flt) (idx : MetadataBitmapIndex F BitSet) (t : F)
      (es : List (NumericEntry F)) (n : ℕ) where
    -- What the four ranges collect.
    collected_from :
        (p : F → Bool)
        → GoesUp flt p
        → IsSorted flt es
        → bitsets.test (collect_bitmap bitsets feq flt sprint idx (drop (search p es) es)) n
          ≡ any_entry p n es
    collected_from p up s =
        collect_bitmap_lem idx (drop (search p es) es) n ∙ any_entry-drop flt order p n es up s

    collected_before :
        (p : F → Bool)
        → GoesUp flt p
        → IsSorted flt es
        → bitsets.test (collect_bitmap bitsets feq flt sprint idx (take (search p es) es)) n
          ≡ any_entry (λ y. not (p y)) n es
    collected_before p up s =
        collect_bitmap_lem idx (take (search p es) es) n ∙ any_entry-take flt order p n es up s

    pub range_of_lem :
        (operator : String) (x : F) (values : Values F)
        → IsSorted flt es
        → is_range operator ≡ true
        → ((p : F → Bool) → any_entry p n es ≡ p x)
        → bit_of bitsets feq flt sprint (range_of bitsets feq flt sprint idx operator t es) n
          ≡ match_present feq flt sprint operator (num x) (num t) values
    unfolding range_of match_present compare_numeric
    range_of_lem operator x values s r h = ground (
      arith,
      r,
      order.asymmetric x t,
      collected_from (λ y. flt t y) (up_beyond order t) s ∙ h (λ y. flt t y),
      collected_from (λ y. not (flt y t)) (up_from order t) s ∙ h (λ y. not (flt y t)),
      collected_before (λ y. flt t y) (up_beyond order t) s ∙ h (λ y. not (flt t y)),
      collected_before (λ y. not (flt y t)) (up_from order t) s ∙ h (λ y. not (not (flt y t))),
    )

    pub range_of_absent :
        (operator : String)
        → IsSorted flt es
        → ((p : F → Bool) → any_entry p n es ≡ false)
        → bit_of bitsets feq flt sprint (range_of bitsets feq flt sprint idx operator t es) n
          ≡ false
    unfolding range_of
    range_of_absent operator s h = ground (
      arith,
      collected_from (λ y. flt t y) (up_beyond order t) s ∙ h (λ y. flt t y),
      collected_from (λ y. not (flt y t)) (up_from order t) s ∙ h (λ y. not (flt y t)),
      collected_before (λ y. flt t y) (up_beyond order t) s ∙ h (λ y. not (flt t y)),
      collected_before (λ y. not (flt y t)) (up_from order t) s ∙ h (λ y. not (not (flt y t))),
    )
