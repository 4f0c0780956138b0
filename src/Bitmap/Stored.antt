-- ===== src/Bitmap/Stored.antt =====
-- The values that entries give a node, as entries come and go.
use magnitude.Common.{
  ℕ, ◌≡◌, refl, sym, ap, ◌∙◌, Bool, true, false, ◌||◌, Option, none, some, List, [], ◌∷◌, ◌++◌,
  ◌==◌, nat_keyed, string_keyed, if◌then◌else◌, arith, Bool-cases, inl, inr,
}
use magnitude.Filter.{Value}
use magnitude.Bitmap.{NumericEntry, to_float64, drop_entry}
use magnitude.Bitmap.Entries.{any_entry}

-- The values that the entries give a node.
unfoldable pub values_at : {F : Type 0} → ℕ → List (NumericEntry F) → List F
values_at n [] = []
values_at n (e ∷ es) = let rest = values_at n es in if e.node_idx == n then e.value ∷ rest else rest

abbrev pub floats : {F : Type 0} → Option F → List F
floats none = []
floats (some x) = x ∷ []

-- The number that a field holds, if it holds one.
abbrev pub numbers : {F : Type 0} → Option (Value F) → List F
numbers none = []
numbers (some v) = floats (to_float64 v)

abbrev pub any_float : {F : Type 0} → (F → Bool) → List F → Bool
any_float p [] = false
any_float p (x ∷ xs) = p x || any_float p xs

pub any_entry_lem :
    {F : Type 0} (p : F → Bool) (n : ℕ) (es : List (NumericEntry F))
    → any_entry p n es ≡ any_float p (values_at n es)
unfolding any_entry values_at
any_entry_lem p n [] = refl
any_entry_lem p n (e ∷ es) = ground (arith, any_entry_lem p n es)

pub append_nil : {F : Type 0} (xs : List F) → xs ++ [] ≡ xs
append_nil [] = refl
append_nil (x ∷ xs) = ap (λ ys. x ∷ ys) (append_nil xs)

pub values_at-append :
    {F : Type 0} (n : ℕ) (x : F) (node_idx : ℕ) (es : List (NumericEntry F))
    → values_at n (es ++ (record { value = x; node_idx = node_idx }) ∷ [])
      ≡ (if node_idx == n then values_at n es ++ x ∷ [] else values_at n es)
unfolding values_at
values_at-append n x node_idx [] = ground arith
values_at-append n x node_idx (e ∷ es) = ground (arith, values_at-append n x node_idx es)

values_at-first :
    {F : Type 0} (n : ℕ) (e : NumericEntry F) (es : List (NumericEntry F))
    → (e.node_idx == n) ≡ true
    → values_at n (e ∷ es) ≡ e.value ∷ values_at n es
unfolding values_at
values_at-first n e es h = rw h refl

values_at-later :
    {F : Type 0} (n : ℕ) (e : NumericEntry F) (es : List (NumericEntry F))
    → (e.node_idx == n) ≡ false
    → values_at n (e ∷ es) ≡ values_at n es
unfolding values_at
values_at-later n e es h = rw h refl

pub parts : {F : Type 0} (x y : F) (xs ys : List F) → x ∷ xs ≡ y ∷ ys → (x ≡ y) × (xs ≡ ys)
parts x y xs ys h = (cc, cc)

pub values_at-drop :
    {F : Type 0} (feq : F → F → Bool) (n node_idx : ℕ) (x : F) (es : List (NumericEntry F))
    → (feq x x ≡ true)
    → values_at node_idx es ≡ x ∷ []
    → values_at n (drop_entry feq node_idx x es) ≡ (if node_idx == n then [] else values_at n es)
unfolding values_at drop_entry
values_at-drop feq n node_idx x [] r h = cc
values_at-drop feq n node_idx x (e ∷ es) r h = elim (Bool-cases (e.node_idx == node_idx)) [
  | inl same ↦
      let shown = values_at-first node_idx e es same in
      let now = sym shown ∙ h in
      let (value, rest) = parts e.value x (values_at node_idx es) [] now in
      ground (arith, value, rest, same, r, ap (λ y. feq y x) value)
  | inr other ↦
      ground
        (arith, values_at-drop feq n node_idx x es r, values_at-later node_idx e es other, other, h)
]
