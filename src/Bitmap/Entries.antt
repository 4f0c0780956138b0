-- ===== src/Bitmap/Entries.antt =====
-- Sorted entries: what the first index that passes a test separates.
use magnitude.Common.{
  ℕ, ◌≡◌, refl, Bool, true, false, not, ◌&&◌, ◌||◌, String, List, [], ◌∷◌, take, drop, ◌==◌,
  nat_keyed, string_keyed, arith, Bool-cases, inl, inr,
}
use magnitude.Common.Dict
use magnitude.Common.Dict.{Dict}
use magnitude.Bitmap.{NumericEntry, entries_of, insert_entry, sort_entries, sort_all}
use magnitude.Bitmap.Query.{search}

-- Some entry of a node passes.
unfoldable pub any_entry : {F : Type 0} → (F → Bool) → ℕ → List (NumericEntry F) → Bool
any_entry p n [] = false
any_entry p n (e ∷ es) = (e.node_idx == n && p e.value) || any_entry p n es

module _ {F : Type 0} (flt : F → F → Bool) where
  -- No later value is below an earlier one.
  abbrev NoneBelow : F → List (NumericEntry F) → Type 0
  NoneBelow x [] = Unit
  NoneBelow x (e ∷ es) = (flt e.value x ≡ false) × NoneBelow x es

  abbrev pub IsSorted : List (NumericEntry F) → Type 0
  IsSorted [] = Unit
  IsSorted (e ∷ es) = NoneBelow e.value es × IsSorted es

  any_entry-insert :
      (p : F → Bool) (n : ℕ) (e : NumericEntry F) (es : List (NumericEntry F))
      → any_entry p n (insert_entry flt e es) ≡ any_entry p n (e ∷ es)
  unfolding any_entry insert_entry
  any_entry-insert p n e [] = refl
  any_entry-insert p n e (d ∷ ds) = ground (arith, any_entry-insert p n e ds)

  pub any_entry-sort :
      (p : F → Bool) (n : ℕ) (es : List (NumericEntry F))
      → any_entry p n (sort_entries flt es) ≡ any_entry p n es
  unfolding any_entry sort_entries
  any_entry-sort p n [] = refl
  any_entry-sort p n (e ∷ es) =
      ground (arith, any_entry-insert p n e (sort_entries flt es), any_entry-sort p n es)

  -- The order of float64 without NaN.
  pub record IsOrder : Type 0 where
    pub asymmetric : (a b : F) → flt a b ≡ true → flt b a ≡ false
    pub compares : (a b c : F) → flt a c ≡ true → (flt a b || flt b c) ≡ true

  -- A test that every larger value passes too.
  abbrev pub GoesUp : (F → Bool) → Type 0
  GoesUp p = (x y : F) → flt y x ≡ false → p x ≡ true → p y ≡ true

  module _ (order : IsOrder) where
    down-NoneBelow :
        (x y : F) (es : List (NumericEntry F)) → flt y x ≡ false → NoneBelow y es → NoneBelow x es
    down-NoneBelow x y [] h s = tt
    down-NoneBelow x y (e ∷ es) h s =
        (ground (arith, s.0, order.compares e.value y x), down-NoneBelow x y es h s.1)

    NoneBelow-insert :
        (x : F) (e : NumericEntry F) (es : List (NumericEntry F))
        → flt e.value x ≡ false
        → NoneBelow x es
        → NoneBelow x (insert_entry flt e es)
    unfolding insert_entry
    NoneBelow-insert x e [] h s = (h, tt)
    NoneBelow-insert x e (d ∷ ds) h s = elim (Bool-cases (flt e.value d.value)) [
      | inl below ↦ rw below (h, s)
      | inr above ↦ rw above (s.0, NoneBelow-insert x e ds h s.1)
    ]

    insert-IsSorted :
        (e : NumericEntry F) (es : List (NumericEntry F))
        → IsSorted es
        → IsSorted (insert_entry flt e es)
    unfolding insert_entry
    insert-IsSorted e [] s = (tt, tt)
    insert-IsSorted e (d ∷ ds) s = elim (Bool-cases (flt e.value d.value)) [
      | inl below ↦ rw below (
        (
          order.asymmetric e.value d.value below,
          down-NoneBelow e.value d.value ds (order.asymmetric e.value d.value below) s.0,
        ),
        s,
      )
      | inr above ↦ rw above (NoneBelow-insert d.value e ds above s.0, insert-IsSorted e ds s.1)
    ]

    pub sort-IsSorted : (es : List (NumericEntry F)) → IsSorted (sort_entries flt es)
    unfolding sort_entries
    sort-IsSorted [] = tt
    sort-IsSorted (e ∷ es) = insert-IsSorted e (sort_entries flt es) (sort-IsSorted es)

    any_entry-above :
        (p : F → Bool) (x : F) (n : ℕ) (es : List (NumericEntry F))
        → GoesUp p
        → p x ≡ true
        → NoneBelow x es
        → any_entry (λ y. true) n es ≡ any_entry p n es
    unfolding any_entry
    any_entry-above p x n [] up h s = refl
    any_entry-above p x n (e ∷ es) up h s =
        ground (arith, up x e.value s.0 h, any_entry-above p x n es up h s.1)

    any_entry-above_not :
        (p : F → Bool) (x : F) (n : ℕ) (es : List (NumericEntry F))
        → GoesUp p
        → p x ≡ true
        → NoneBelow x es
        → any_entry (λ y. not (p y)) n es ≡ false
    unfolding any_entry
    any_entry-above_not p x n [] up h s = refl
    any_entry-above_not p x n (e ∷ es) up h s =
        ground (arith, up x e.value s.0 h, any_entry-above_not p x n es up h s.1)

    -- On sorted entries, those from the first index that passes are those that pass.
    pub any_entry-drop :
        (p : F → Bool) (n : ℕ) (es : List (NumericEntry F))
        → GoesUp p
        → IsSorted es
        → any_entry (λ y. true) n (drop (search p es) es) ≡ any_entry p n es
    unfolding any_entry search
    any_entry-drop p n [] up s = refl
    any_entry-drop p n (e ∷ es) up s = elim (Bool-cases (p e.value)) [
      | inl passes ↦ rw passes (ground (arith, any_entry-above p e.value n es up passes s.0))
      | inr fails ↦ rw fails (ground (arith, any_entry-drop p n es up s.1))
    ]

    -- And those before it are those that do not.
    pub any_entry-take :
        (p : F → Bool) (n : ℕ) (es : List (NumericEntry F))
        → GoesUp p
        → IsSorted es
        → any_entry (λ y. true) n (take (search p es) es) ≡ any_entry (λ y. not (p y)) n es
    unfolding any_entry search
    any_entry-take p n [] up s = refl
    any_entry-take p n (e ∷ es) up s = elim (Bool-cases (p e.value)) [
      | inl passes ↦ rw passes (ground (arith, any_entry-above_not p e.value n es up passes s.0))
      | inr fails ↦ rw fails (ground (arith, any_entry-take p n es up s.1))
    ]

  -- Sorting every field.
  pub lookup-sort_all :
      (name : String) (m : Dict String (List (NumericEntry F)))
      → entries_of (Dict.lookup name (sort_all flt m))
        ≡ sort_entries flt (entries_of (Dict.lookup name m))
  unfolding sort_all sort_entries Dict.lookup
  lookup-sort_all name [] = refl
  lookup-sort_all name ((at, es) ∷ rest) = elim (Bool-cases (at == name)) [
    | inl here ↦ rw here refl
    | inr elsewhere ↦ rw elsewhere (lookup-sort_all name rest)
  ]
