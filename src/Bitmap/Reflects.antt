-- ===== src/Bitmap/Reflects.antt =====
-- The bitmaps and entries of an index against the metadata of its nodes.
use magnitude.Common.{
  ℕ, ◌+◌, ◌≡◌, refl, sym, ap, ◌∙◌, Bool, true, false, not, ◌&&◌, ◌||◌, String, Option, none, some,
  List, [], ◌∷◌, ◌++◌, ◌==◌, nat_keyed, string_keyed, if◌then◌else◌, arith, Option-cases, inl, inr,
}
use magnitude.Common.Dict
use magnitude.Common.Dict.{Dict}
use text.Mathlib.TextEquality.{eq_iff}
use magnitude.Filter.{Value}
use magnitude.Bitmap.{
  Bitsets, NumericEntry, MetadataBitmapIndex, to_float64, entries_of, drop_entry, store_entry,
  composite_key, new_index, set, forget_entry, remove,
}
use magnitude.Bitmap.Keys.{NoNul, composite_key_lem}
use magnitude.Bitmap.Stored.{
  values_at, floats, numbers, append_nil, values_at-append, values_at-drop,
}

module _ (bitsets : Bitsets) {F : Type 0} (feq flt : F → F → Bool) (sprint : Value F → String) where
  open bitsets use {BitSet}

  -- A bit, out where there is no bitmap.
  abbrev pub bit_of : Option BitSet → ℕ → Bool
  bit_of none n = false
  bit_of (some bm) n = bitsets.test bm n

  -- The text of a field is this value's.
  abbrev pub prints_as : Option (Value F) → Value F → Bool
  prints_as none v = false
  prints_as (some w) v = sprint w == sprint v

  pub record Reflects (idx : MetadataBitmapIndex F BitSet) (meta : ℕ → Dict String (Value F))
      : Type 0 where
    pub marked :
        (name : String) (v : Value F) (n : ℕ)
        → NoNul name
        → bit_of (Dict.lookup (composite_key sprint name v) idx.bits) n
          ≡ prints_as (Dict.lookup name (meta n)) v
    pub stored :
        (name : String) (n : ℕ)
        → NoNul name
        → values_at n (entries_of (Dict.lookup name idx.numeric_sorted))
          ≡ numbers (Dict.lookup name (meta n))

  -- One field of one node written, and one deleted.
  abbrev pub write : ℕ → String → Value F → (ℕ → Dict String (Value F)) → ℕ → Dict String (Value F)
  write node_idx name v meta n = if n == node_idx then Dict.insert name v (meta n) else meta n

  abbrev pub erase : ℕ → String → (ℕ → Dict String (Value F)) → ℕ → Dict String (Value F)
  erase node_idx name meta n = if n == node_idx then Dict.delete name (meta n) else meta n

  pub new_index-Reflects : Reflects (new_index bitsets feq flt sprint) (λ n. [])
  unfolding new_index values_at Dict.lookup
  new_index-Reflects = record { marked = λ name v n p. refl; stored = λ name n p. refl }

  bit_of-set :
      (k at : String) (i n : ℕ) (bits : Dict String BitSet)
      → bit_of
          (Dict.lookup at (
            Dict.insert k
              (bitsets.set
                (elim (Dict.lookup k bits) [ none ↦ bitsets.new (i + 64) | some bm ↦ bm ])
                i)
              bits))
          n
        ≡ (k == at && i == n) || bit_of (Dict.lookup at bits) n
  bit_of-set k at i n bits = elim (Option-cases (Dict.lookup k bits)) [
    | inl missing ↦ ground (
      arith,
      missing,
      eq_iff k at,
      bitsets.test-set (bitsets.new (i + 64)) i n,
      bitsets.test-new (i + 64) n,
      Dict.lookup-insert k at (bitsets.set (bitsets.new (i + 64)) i) bits,
    )
    | inr (bm, found) ↦ ground (
      arith,
      found,
      eq_iff k at,
      bitsets.test-set bm i n,
      Dict.lookup-insert k at (bitsets.set bm i) bits,
    )
  ]

  at_node :
      (at : String) (meta : ℕ → Dict String (Value F)) (n i : ℕ)
      → n ≡ i
      → Dict.lookup at (meta n) ≡ Dict.lookup at (meta i)
  at_node at meta n i e = cc

  set-marked :
      (idx : MetadataBitmapIndex F BitSet) (meta : ℕ → Dict String (Value F)) (name : String)
      (v : Value F) (node_idx : ℕ)
      → NoNul name
      → Reflects idx meta
      → Dict.lookup name (meta node_idx) ≡ none
      → (at : String) (w : Value F) (n : ℕ) → NoNul at
      → bit_of
          (Dict.lookup
            (composite_key sprint at w)
            (set bitsets feq flt sprint idx name v node_idx).bits)
          n
        ≡ prints_as (Dict.lookup at (write node_idx name v meta n)) w
  unfolding set
  set-marked idx meta name v node_idx p r absent at w n q = ground (
    arith,
    bit_of-set (composite_key sprint name v) (composite_key sprint at w) node_idx n idx.bits,
    composite_key_lem sprint name at v w p q,
    r.marked at w n q,
    Dict.lookup-insert name at v (meta n),
    at_node name meta n node_idx,
    absent,
    eq_iff name at,
  )

  values_at-store :
      (name at : String) (v : Value F) (i n : ℕ) (sorted : Dict String (List (NumericEntry F)))
      → values_at n (entries_of (Dict.lookup at (store_entry name v i sorted))) ≡ (
          if name == at && i == n
          then values_at n (entries_of (Dict.lookup at sorted)) ++ floats (to_float64 v)
          else values_at n (entries_of (Dict.lookup at sorted)))
  unfolding store_entry
  values_at-store name at v i n sorted = elim (Option-cases (to_float64 v)) [
    | inl missing ↦
        rw missing (ground (arith, append_nil (values_at n (entries_of (Dict.lookup at sorted)))))
    | inr (x, found) ↦ rw found (
        ground (
          arith,
          eq_iff name at,
          Dict.lookup-insert name at
              (entries_of (Dict.lookup name sorted) ++ (record { value = x; node_idx = i }) ∷ [])
              sorted,
          values_at-append n x i (entries_of (Dict.lookup name sorted)),
        ))
  ]

  -- On an index that reflects the metadata, `Set` of a field that the node does not have yet and whose
  -- name has no NUL gives an index that reflects the metadata with this field.
  pub set-Reflects :
      (idx : MetadataBitmapIndex F BitSet) (meta : ℕ → Dict String (Value F)) (name : String)
      (v : Value F) (node_idx : ℕ)
      → NoNul name
      → Reflects idx meta
      → Dict.lookup name (meta node_idx) ≡ none
      → Reflects (set bitsets feq flt sprint idx name v node_idx) (write node_idx name v meta)
  unfolding set
  set-Reflects idx meta name v node_idx p r absent = record {
    marked = λ at w n q. set-marked idx meta name v node_idx p r absent at w n q;
    stored = λ at n q. ground (
      arith,
      values_at-store name at v node_idx n idx.numeric_sorted,
      r.stored at n q,
      Dict.lookup-insert name at v (meta n),
      at_node name meta n node_idx,
      absent,
      eq_iff name at,
    );
  }

  bit_of-clear :
      (k at : String) (i n : ℕ) (bits : Dict String BitSet)
      → bit_of
          (Dict.lookup at (elim (Dict.lookup k bits) [
            | none ↦ bits
            | some bm ↦ Dict.insert k (bitsets.clear bm i) bits
          ]))
          n
        ≡ (not (k == at && i == n) && bit_of (Dict.lookup at bits) n)
  bit_of-clear k at i n bits = elim (Option-cases (Dict.lookup k bits)) [
    | inl missing ↦ rw missing (ground (arith, missing, eq_iff k at))
    | inr (bm, found) ↦ rw found (
        ground (
          arith,
          found,
          eq_iff k at,
          bitsets.test-clear bm i n,
          Dict.lookup-insert k at (bitsets.clear bm i) bits,
        ))
  ]

  at_field :
      (name at : String) (i n : ℕ) (sorted : Dict String (List (NumericEntry F)))
      → name ≡ at
      → i ≡ n
      → values_at n (entries_of (Dict.lookup at sorted))
        ≡ values_at i (entries_of (Dict.lookup name sorted))
  at_field name at i n sorted e d = cc

  nil_cons : (i : ℕ) (x : F) → values_at i [] ≡ x ∷ [] → ⊥
  unfolding values_at
  nil_cons i x h = cc

  values_at-forget :
      (name at : String) (v : Value F) (i n : ℕ) (sorted : Dict String (List (NumericEntry F)))
      → ((x : F) → feq x x ≡ true)
      → values_at i (entries_of (Dict.lookup name sorted)) ≡ floats (to_float64 v)
      → values_at n
          (entries_of (Dict.lookup at (forget_entry bitsets feq flt sprint name v i sorted)))
        ≡ (if name == at && i == n then [] else values_at n (entries_of (Dict.lookup at sorted)))
  unfolding forget_entry
  values_at-forget name at v i n sorted same h = elim (Option-cases (to_float64 v)) [
    | inl missing ↦
        rw (forget_entry, missing)
          (ground (arith, h ∙ ap floats missing, eq_iff name at, at_field name at i n sorted))
    | inr (x, found) ↦ elim (Option-cases (Dict.lookup name sorted)) [
      | inl nothing ↦
          absurd (
            nil_cons i x (sym (ap (λ o. values_at i (entries_of o)) nothing) ∙ h ∙ ap floats found))
      | inr (entries, those) ↦
          rw (forget_entry, found, those)
            (ground (
              arith,
              values_at-drop feq n i x entries (same x)
                  (sym (ap (λ o. values_at i (entries_of o)) those) ∙ h ∙ ap floats found),
              eq_iff name at,
              at_field name at i n sorted,
              those,
              Dict.lookup-insert name at (drop_entry feq i x entries) sorted,
            ))
    ]
  ]

  -- If `==` holds of equal numbers, `Remove` of the value that a node has in a field, whose name has no
  -- NUL, from an index that reflects the metadata gives one that reflects it without this field.
  pub remove-Reflects :
      (idx : MetadataBitmapIndex F BitSet) (meta : ℕ → Dict String (Value F)) (name : String)
      (v : Value F) (node_idx : ℕ)
      → ((x : F) → feq x x ≡ true)
      → NoNul name
      → Reflects idx meta
      → Dict.lookup name (meta node_idx) ≡ some v
      → Reflects (remove bitsets feq flt sprint idx name v node_idx) (erase node_idx name meta)
  unfolding remove
  remove-Reflects idx meta name v node_idx same p r present = record {
    marked = λ at w n q. ground (
      arith,
      bit_of-clear (composite_key sprint name v) (composite_key sprint at w) node_idx n idx.bits,
      composite_key_lem sprint name at v w p q,
      r.marked at w n q,
      Dict.lookup-delete name at (meta n),
      at_node name meta n node_idx,
      present,
      eq_iff name at,
    );
    stored = λ at n q. ground (
      arith,
      values_at-forget name at v node_idx n idx.numeric_sorted same
          (r.stored name node_idx p ∙ ap numbers present),
      r.stored at n q,
      Dict.lookup-delete name at (meta n),
      eq_iff name at,
    );
  }
