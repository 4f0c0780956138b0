-- ===== src/Common/Slices.antt =====
-- Laws of `copy` between Go slices: what a slice of the target reads afterwards.
use Prim.Native.Nat.{ℕ, zero, suc, ◌+◌, ◌≤◌, ◌<◌}
use mathlib.Core.Path.{◌≡◌, refl, ap, ◌∙◌}
use mathlib.Core.List.{List, [], ◌∷◌}
use native.Mathlib.Omega.{arith}
use magnitude.Common.Lists.{length, get_elem?, take, drop, copy_at, slice, length-take, length-drop}

module _ {ℓ} {A : Type ℓ} where
  take-copy_front :
      (n : ℕ) (src dst : List A)
      → n ≤ length src
      → length src ≤ length dst
      → take n (copy_at zero src dst) ≡ take n src
  take-copy_front zero src dst h l = refl
  take-copy_front (suc n) [] dst h l = elim h [ ]
  take-copy_front (suc n) (x ∷ src) [] h l = elim l [ ]
  take-copy_front (suc n) (x ∷ src) (y ∷ dst) h l =
      ap (◌∷◌ x) (take-copy_front n src dst (omega arith) (omega arith))

  pub take_all : (n : ℕ) (xs : List A) → length xs ≤ n → take n xs ≡ xs
  take_all zero [] h = refl
  take_all zero (x ∷ xs) h = elim h [ ]
  take_all (suc n) [] h = refl
  take_all (suc n) (x ∷ xs) h = ap (◌∷◌ x) (take_all n xs (omega arith))

  pub length-slice : (i n : ℕ) (xs : List A) → i + n ≤ length xs → length (slice i n xs) ≡ n
  length-slice i n xs h = omega (arith, length-take n (drop i xs), length-drop i xs)

  -- What was copied is read back.
  pub slice-copy_at_self :
      (off : ℕ) (src dst : List A)
      → off + length src ≤ length dst
      → slice off (length src) (copy_at off src dst) ≡ src
  slice-copy_at_self zero src dst h =
      take-copy_front (length src) src dst (omega arith) (omega arith)
      ∙ take_all (length src) src (omega arith)
  slice-copy_at_self (suc off) src [] h = absurd (omega arith)
  slice-copy_at_self (suc off) src (y ∷ dst) h = slice-copy_at_self off src dst (omega arith)

  pub slice-copy_at_below :
      (off i n : ℕ) (src dst : List A)
      → i + n ≤ off
      → slice i n (copy_at off src dst) ≡ slice i n dst
  slice-copy_at_below zero zero zero src dst h = refl
  slice-copy_at_below zero zero (suc n) src dst h = absurd (omega arith)
  slice-copy_at_below zero (suc i) n src dst h = absurd (omega arith)
  slice-copy_at_below (suc off) i n src [] h = refl
  slice-copy_at_below (suc off) (suc i) n src (y ∷ dst) h =
      slice-copy_at_below off i n src dst (omega arith)
  slice-copy_at_below (suc off) zero zero src (y ∷ dst) h = refl
  slice-copy_at_below (suc off) zero (suc n) src (y ∷ dst) h =
      ap (◌∷◌ y) (slice-copy_at_below off zero n src dst (omega arith))

  pub slice-copy_at_above :
      (off i n : ℕ) (src dst : List A)
      → off + length src ≤ i
      → slice i n (copy_at off src dst) ≡ slice i n dst
  slice-copy_at_above zero i n [] dst h = refl
  slice-copy_at_above zero i n (x ∷ src) [] h = refl
  slice-copy_at_above zero zero n (x ∷ src) (y ∷ dst) h = absurd (omega arith)
  slice-copy_at_above zero (suc i) n (x ∷ src) (y ∷ dst) h =
      slice-copy_at_above zero i n src dst (omega arith)
  slice-copy_at_above (suc off) i n src [] h = refl
  slice-copy_at_above (suc off) zero n src (y ∷ dst) h = absurd (omega arith)
  slice-copy_at_above (suc off) (suc i) n src (y ∷ dst) h =
      slice-copy_at_above off i n src dst (omega arith)

  -- A copy to the front of a fresh, longer slice keeps what the source held.
  pub slice-copy_front :
      (i n : ℕ) (src dst : List A)
      → i + n ≤ length src
      → length src ≤ length dst
      → slice i n (copy_at zero src dst) ≡ slice i n src
  slice-copy_front zero n src dst h l = take-copy_front n src dst (omega arith) l
  slice-copy_front (suc i) n [] dst h l = absurd (omega arith)
  slice-copy_front (suc i) n (x ∷ src) [] h l = elim l [ ]
  slice-copy_front (suc i) n (x ∷ src) (y ∷ dst) h l =
      slice-copy_front i n src dst (omega arith) (omega arith)

  pub slice-take : (i n m : ℕ) (xs : List A) → i + n ≤ m → slice i n (take m xs) ≡ slice i n xs
  slice-take i n m [] h = ap (slice i n) (take_all m [] (omega arith))
  slice-take zero zero m (x ∷ xs) h = refl
  slice-take zero (suc n) zero (x ∷ xs) h = absurd (omega arith)
  slice-take zero (suc n) (suc m) (x ∷ xs) h = ap (◌∷◌ x) (slice-take zero n m xs (omega arith))
  slice-take (suc i) n zero (x ∷ xs) h = absurd (omega arith)
  slice-take (suc i) n (suc m) (x ∷ xs) h = slice-take i n m xs (omega arith)

  pub get_elem?-copy_front :
      (i : ℕ) (src dst : List A)
      → i < length src
      → length src ≤ length dst
      → get_elem? (copy_at zero src dst) i ≡ get_elem? src i
  get_elem?-copy_front i [] dst h l = elim h [ ]
  get_elem?-copy_front i (x ∷ src) [] h l = elim l [ ]
  get_elem?-copy_front zero (x ∷ src) (y ∷ dst) h l = refl
  get_elem?-copy_front (suc i) (x ∷ src) (y ∷ dst) h l =
      get_elem?-copy_front i src dst (omega arith) (omega arith)

  pub get_elem?-take : (i m : ℕ) (xs : List A) → i < m → get_elem? (take m xs) i ≡ get_elem? xs i
  get_elem?-take i zero xs h = elim h [ ]
  get_elem?-take i (suc m) [] h = refl
  get_elem?-take zero (suc m) (x ∷ xs) h = refl
  get_elem?-take (suc i) (suc m) (x ∷ xs) h = get_elem?-take i m xs (omega arith)

  pub copy_all : (src dst : List A) → length src ≡ length dst → copy_at zero src dst ≡ src
  copy_all [] [] h = refl
  copy_all [] (y ∷ dst) h = absurd (omega arith)
  copy_all (x ∷ src) [] h = absurd (omega arith)
  copy_all (x ∷ src) (y ∷ dst) h = ap (◌∷◌ x) (copy_all src dst (omega arith))
