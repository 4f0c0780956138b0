-- ===== src/Bitmap/Query.antt =====
-- `Resolve` of internal/index/bitmap_index.go: the bitmap of the nodes that match a filter.
-- `sort.Search` returns the first index that passes its test, on a sorted list.
use magnitude.Common.{
  ℕ, suc, ◌+◌, Bool, not, String, Option, none, some, List, [], ◌∷◌, length, take, drop, leb, ◌==◌,
  nat_keyed, string_keyed, if◌then◌else◌,
}
use magnitude.Common.Dict
use magnitude.Common.Dict.{Dict}
use magnitude.Filter.{
  Value, Values, nil, cons, FieldFilter, Filter, filter, Filters, no_filters, more,
}
use magnitude.Bitmap.{
  Bitsets, NumericEntry, MetadataBitmapIndex, to_float64, entries_of, sort_entries, sort_all,
  composite_key,
}

module _ {F : Type 0} where
  unfoldable pub search : (F → Bool) → List (NumericEntry F) → ℕ
  search passes [] = 0
  search passes (e ∷ es) = if passes e.value then 0 else suc (search passes es)

-- What the loop over the conditions leaves: it returns an empty bitmap at once, or goes on.
pub data Ands (B : Type 0) : Type 0 where
  empty_bitmap : Ands B
  met : Option B → Ands B

module _ (bitsets : Bitsets) {F : Type 0} (feq flt : F → F → Bool) (sprint : Value F → String) where
  open bitsets use {BitSet}

  unfoldable pub all_size : MetadataBitmapIndex F BitSet → ℕ
  all_size idx =
      if leb idx.total_nodes idx.max_node_idx then idx.max_node_idx + 1 else idx.total_nodes

  unfoldable pub all_nodes_bitmap : MetadataBitmapIndex F BitSet → BitSet
  unfolding all_size
  all_nodes_bitmap idx = bitsets.flip_range (bitsets.new (all_size idx)) 0 (all_size idx)

  unfoldable pub set_entries : BitSet → List (NumericEntry F) → BitSet
  set_entries bm [] = bm
  set_entries bm (e ∷ es) = set_entries (bitsets.set bm e.node_idx) es

  unfoldable pub collect_bitmap : MetadataBitmapIndex F BitSet → List (NumericEntry F) → BitSet
  unfolding set_entries
  collect_bitmap idx entries =
      if length entries == 0
      then bitsets.new 0
      else set_entries (bitsets.new (idx.max_node_idx + 1)) entries

  -- The entries of a field beyond a threshold; `none` is nil.
  unfoldable pub range_of :
      MetadataBitmapIndex F BitSet → String → F → List (NumericEntry F) → Option BitSet
  unfolding collect_bitmap search
  range_of idx operator threshold entries =
      let above = search (λ x. flt threshold x) entries in
      let from = search (λ x. not (flt x threshold)) entries in
      if operator == "$gt"
      then some (collect_bitmap idx (drop above entries))
      else if operator == "$gte"
      then some (collect_bitmap idx (drop from entries))
      else if operator == "$lt"
      then some (collect_bitmap idx (take from entries))
      else if operator == "$lte"
      then some (collect_bitmap idx (take above entries))
      else none

  unfoldable pub resolve_numeric_range :
      MetadataBitmapIndex F BitSet → FieldFilter F → Option BitSet
  unfolding range_of
  resolve_numeric_range idx ff =
      let entries = entries_of (Dict.lookup ff.name idx.numeric_sorted) in
      if length entries == 0 then none else elim (to_float64 ff.value) [
        | none ↦ none
        | some threshold ↦ range_of idx ff.operator threshold entries
      ]

  -- The union of two bitmaps of which the first may be nil.
  abbrev pub join : Option BitSet → BitSet → BitSet
  join none bm = bm
  join (some result) bm = bitsets.union result bm

  -- The loop over the values of `$in` and `$nin`.
  unfoldable pub union_values :
      MetadataBitmapIndex F BitSet → String → Values F → Option BitSet → Option BitSet
  unfolding composite_key
  union_values idx name nil result = result
  union_values idx name (cons v vs) result =
      union_values idx name vs (elim (Dict.lookup (composite_key sprint name v) idx.bits) [
        | none ↦ result
        | some bm ↦ some (join result bm)
      ])

  abbrev pub minus : BitSet → Option BitSet → BitSet
  minus all none = all
  minus all (some excluded) = bitsets.difference all excluded

  unfoldable pub resolve_field_filter : MetadataBitmapIndex F BitSet → FieldFilter F → Option BitSet
  unfolding composite_key all_nodes_bitmap union_values resolve_numeric_range
  resolve_field_filter idx ff =
      if ff.operator == "$eq"
      then Dict.lookup (composite_key sprint ff.name ff.value) idx.bits
      else if ff.operator == "$ne"
      then some (
          minus (all_nodes_bitmap idx)
            (Dict.lookup (composite_key sprint ff.name ff.value) idx.bits))
      else if ff.operator == "$in"
      then union_values idx ff.name ff.values none
      else if ff.operator == "$nin"
      then some (minus (all_nodes_bitmap idx) (union_values idx ff.name ff.values none))
      else resolve_numeric_range idx ff

  -- The intersection of two bitmaps of which the first may be nil.
  abbrev pub meet : Option BitSet → BitSet → BitSet
  meet none bm = bm
  meet (some result) bm = bitsets.intersection result bm

  unfoldable pub resolve_ands :
      MetadataBitmapIndex F BitSet → List (FieldFilter F) → Option BitSet → Ands BitSet
  unfolding resolve_field_filter
  resolve_ands idx [] result = met result
  resolve_ands idx (ff ∷ ffs) result = elim (resolve_field_filter idx ff) [
    | none ↦ empty_bitmap
    | some bm ↦ resolve_ands idx ffs (some (meet result bm))
  ]

  abbrev pub join_option : Option BitSet → Option BitSet → Option BitSet
  join_option result none = result
  join_option result (some bm) = some (join result bm)

  abbrev pub meet_option : Option BitSet → Option BitSet → Option BitSet
  meet_option result none = result
  meet_option result (some bm) = some (meet result bm)

  unfoldable mutual
    unfolding resolve_ands

    pub resolve_inner : MetadataBitmapIndex F BitSet → Filter F → Option BitSet
    resolve_inner idx (filter conditions alternatives) = elim (resolve_ands idx conditions none) [
      | empty_bitmap ↦ some (bitsets.new 0)
      | met result ↦ meet_option result (resolve_ors idx alternatives none)
    ]

    -- The loop over the alternatives: those that resolve to nil are skipped.
    pub resolve_ors : MetadataBitmapIndex F BitSet → Filters F → Option BitSet → Option BitSet
    resolve_ors idx no_filters result = result
    resolve_ors idx (more f fs) result =
        resolve_ors idx fs (join_option result (resolve_inner idx f))

  -- The index with its entries sorted, and the bitmap; `none` is nil.
  unfoldable pub resolve :
      MetadataBitmapIndex F BitSet
      → Option (Filter F)
      → MetadataBitmapIndex F BitSet × Option BitSet
  unfolding sort_all resolve_inner
  resolve idx none = (idx, none)
  resolve idx (some f) =
      let sorted = record idx { numeric_sorted = sort_all flt idx.numeric_sorted } in
      (sorted, resolve_inner sorted f)

  unfoldable sort_numeric : MetadataBitmapIndex F BitSet → String → MetadataBitmapIndex F BitSet
  unfolding sort_entries
  sort_numeric idx name = record idx {
    numeric_sorted =
        Dict.insert name (sort_entries flt (entries_of (Dict.lookup name idx.numeric_sorted)))
          idx.numeric_sorted;
  }
