-- ===== src/Bitmap.antt =====
-- internal/index/bitmap_index.go: for each field and value the set of the nodes that have it. The
-- bitsets of github.com/bits-and-blooms/bitset are a parameter, and so are float64 and the `%v` of
-- fmt, as for filters. `sort.Slice` is insertion sort: a bitmap does not show the order of equal
-- values.
pub mod Query
mod Keys
mod Entries
pub mod Compare
pub mod Ranges
mod Field
pub mod Stored
pub mod Reflects
pub mod Conditions
pub mod Resolve
pub mod Faults
mod Tests
use magnitude.Common.{
  ℕ, suc, ◌+◌, ◌≡◌, Bool, true, false, not, ◌&&◌, ◌||◌, String, Option, none, some, List, [], ◌∷◌,
  length, take, drop, ◌++◌, leb, ltb, ◌==◌, nat_keyed, string_keyed, if◌then◌else◌,
}
use Prim.Native.String.{◌++◌ as text_append}
use magnitude.Common.Dict
use magnitude.Common.Dict.{Dict}
use magnitude.Filter.{
  Value, null, num, str, boolean, arr, obj, Values, nil, cons, FieldFilter, Filter, filter, Filters,
  no_filters, more,
}

-- Sets of bits: `set`, `clear` and `flip_range` return the changed set, and a set is as long as it
-- must be.
pub record Bitsets : Type 1 where
  pub BitSet : Type 0
  pub new : ℕ → BitSet
  pub test : BitSet → ℕ → Bool
  pub set : BitSet → ℕ → BitSet
  pub clear : BitSet → ℕ → BitSet
  pub union : BitSet → BitSet → BitSet
  pub intersection : BitSet → BitSet → BitSet
  pub difference : BitSet → BitSet → BitSet
  pub flip_range : BitSet → ℕ → ℕ → BitSet
  pub test-new : (size i : ℕ) → test (new size) i ≡ false
  pub test-set : (b : BitSet) (i j : ℕ) → test (set b i) j ≡ (i == j || test b j)
  pub test-clear : (b : BitSet) (i j : ℕ) → test (clear b i) j ≡ (not (i == j) && test b j)
  pub test-union : (a b : BitSet) (i : ℕ) → test (union a b) i ≡ (test a i || test b i)
  pub test-intersection :
      (a b : BitSet) (i : ℕ) → test (intersection a b) i ≡ (test a i && test b i)
  pub test-difference :
      (a b : BitSet) (i : ℕ) → test (difference a b) i ≡ (test a i && not (test b i))
  pub test-flip_range :
      (b : BitSet) (lo hi i : ℕ)
      → test (flip_range b lo hi) i ≡ (if leb lo i && ltb i hi then not (test b i) else test b i)

pub record NumericEntry (F : Type 0) : Type 0 where
  pub value : F
  pub node_idx : ℕ

pub record MetadataBitmapIndex (F B : Type 0) : Type 0 where
  pub bits : Dict String B
  pub numeric_sorted : Dict String (List (NumericEntry F))
  pub max_node_idx : ℕ
  pub total_nodes : ℕ
  pub field_cardinality : Dict String ℕ

abbrev pub to_float64 : {F : Type 0} → Value F → Option F
to_float64 (num x) = some x
to_float64 _ = none

-- The entries of a field, none where the map has none.
abbrev pub entries_of : {F : Type 0} → Option (List (NumericEntry F)) → List (NumericEntry F)
entries_of none = []
entries_of (some es) = es

abbrev pub count_of : Option ℕ → ℕ
count_of none = 0
count_of (some n) = n

module _ {F : Type 0} (flt : F → F → Bool) where
  unfoldable pub insert_entry : NumericEntry F → List (NumericEntry F) → List (NumericEntry F)
  insert_entry e [] = e ∷ []
  insert_entry e (d ∷ ds) = if flt e.value d.value then e ∷ d ∷ ds else d ∷ insert_entry e ds

  unfoldable pub sort_entries : List (NumericEntry F) → List (NumericEntry F)
  unfolding insert_entry
  sort_entries [] = []
  sort_entries (e ∷ es) = insert_entry e (sort_entries es)

  -- The loop of `Resolve` over the fields.
  unfoldable pub sort_all :
      Dict String (List (NumericEntry F)) → Dict String (List (NumericEntry F))
  unfolding sort_entries
  sort_all [] = []
  sort_all ((name, entries) ∷ rest) = (name, sort_entries entries) ∷ sort_all rest

module _ {F : Type 0} where
  -- `append(entries[:i], entries[i+1:]...)` at the first entry of the node and the value.
  unfoldable pub drop_entry : (F → F → Bool) → ℕ → F → List (NumericEntry F) → List (NumericEntry F)
  drop_entry feq node_idx x [] = []
  drop_entry feq node_idx x (e ∷ es) =
      if e.node_idx == node_idx && feq e.value x then es else e ∷ drop_entry feq node_idx x es

module _ {F : Type 0} where
  unfoldable pub store_entry :
      String
      → Value F
      → ℕ
      → Dict String (List (NumericEntry F))
      → Dict String (List (NumericEntry F))
  store_entry name value node_idx sorted = elim (to_float64 value) [
    | none ↦ sorted
    | some x ↦
        Dict.insert name
          (entries_of (Dict.lookup name sorted) ++ (record { value = x; node_idx = node_idx }) ∷ [])
          sorted
  ]

module _ {F : Type 0} (sprint : Value F → String) where
  unfoldable pub composite_key : String → Value F → String
  composite_key name value = text_append name (text_append "\0" (sprint value))

module _ (bitsets : Bitsets) {F : Type 0} (feq flt : F → F → Bool) (sprint : Value F → String) where
  open bitsets use {BitSet}

  unfoldable pub new_index : MetadataBitmapIndex F BitSet
  new_index = record {
    bits = [];
    numeric_sorted = [];
    max_node_idx = 0;
    total_nodes = 0;
    field_cardinality = [];
  }

  unfoldable pub set :
      MetadataBitmapIndex F BitSet → String → Value F → ℕ → MetadataBitmapIndex F BitSet
  unfolding composite_key store_entry
  set idx name value node_idx =
      let key = composite_key sprint name value in
      let known = Dict.lookup key idx.bits in
      record idx {
        bits =
            Dict.insert key
              (bitsets.set (elim known [ none ↦ bitsets.new (node_idx + 64) | some bm ↦ bm ])
                node_idx)
              idx.bits;
        field_cardinality = elim known [
          | none ↦
              Dict.insert name (count_of (Dict.lookup name idx.field_cardinality) + 1)
                idx.field_cardinality
          | some bm ↦ idx.field_cardinality
        ];
        max_node_idx = if ltb idx.max_node_idx node_idx then node_idx else idx.max_node_idx;
        numeric_sorted = store_entry name value node_idx idx.numeric_sorted;
      }

  -- A field without entries is left alone.
  unfoldable pub forget_entry :
      String
      → Value F
      → ℕ
      → Dict String (List (NumericEntry F))
      → Dict String (List (NumericEntry F))
  unfolding drop_entry
  forget_entry name value node_idx sorted = elim (to_float64 value) [
    | none ↦ sorted
    | some x ↦ elim (Dict.lookup name sorted) [
      | none ↦ sorted
      | some entries ↦ Dict.insert name (drop_entry feq node_idx x entries) sorted
    ]
  ]

  unfoldable pub remove :
      MetadataBitmapIndex F BitSet → String → Value F → ℕ → MetadataBitmapIndex F BitSet
  unfolding composite_key forget_entry
  remove idx name value node_idx =
      let key = composite_key sprint name value in
      record idx {
        bits = elim (Dict.lookup key idx.bits) [
          | none ↦ idx.bits
          | some bm ↦ Dict.insert key (bitsets.clear bm node_idx) idx.bits
        ];
        numeric_sorted = forget_entry name value node_idx idx.numeric_sorted;
      }

  unfoldable set_total_nodes : MetadataBitmapIndex F BitSet → ℕ → MetadataBitmapIndex F BitSet
  set_total_nodes idx n = record idx { total_nodes = n }
