-- ===== src/Common/Keys.antt =====
-- Lists of keys as the nodes of Go's `container/list`, where every key stands once.
use Prim.Native.Nat.{ℕ, zero, suc, ◌+◌, ◌≤◌}
use mathlib.Core.Path.{◌≡◌, refl}
use mathlib.Core.Bool.{Bool, true, false, ◌||◌}
use mathlib.Core.Logic.{inl, inr}
use mathlib.Core.Option.{Option, none, some}
use mathlib.Core.List.{List, [], ◌∷◌, ◌++◌}
use native.Mathlib.Omega.{arith}
use magnitude.Common.Tests.{Keyed, ◌==◌, if◌then◌else◌, Bool-cases, string_keyed}
use magnitude.Common.Lists.{length, get_elem?}

module _ {ℓ} {K : Type ℓ} ⦃keyed : Keyed K⦄ where
  unfoldable pub has : K → List K → Bool
  has key [] = false
  has key (k ∷ ks) = k == key || has key ks

  -- `l.Remove(elem)`, for the element of a key.
  unfoldable pub erase : K → List K → List K
  erase key [] = []
  erase key (k ∷ ks) = if k == key then ks else k ∷ erase key ks

  -- No key twice.
  abbrev pub IsOnce : List K → Type 0
  IsOnce [] = Unit
  IsOnce (k ∷ ks) = (has k ks ≡ false) × IsOnce ks

  pub has-erase :
      (key at : K) (ks : List K)
      → IsOnce ks
      → has at (erase key ks) ≡ (if key == at then false else has at ks)
  unfolding has erase
  has-erase key at [] once = ground arith
  has-erase key at (k ∷ ks) once = ground (
    arith,
    keyed.same_iff key at,
    keyed.same_iff k key,
    keyed.same_iff k at,
    has-erase key at ks once.1,
  )

  pub erase-IsOnce : (key : K) (ks : List K) → IsOnce ks → IsOnce (erase key ks)
  unfolding erase
  erase-IsOnce key [] once = tt
  erase-IsOnce key (k ∷ ks) once = elim (Bool-cases (k == key)) [
    | inl hit ↦ rw hit once.1
    | inr miss ↦ rw miss (
      ground (arith, keyed.same_iff key k, has-erase key k ks once.1, once.0),
      erase-IsOnce key ks once.1,
    )
  ]

  pub length-erase :
      (key : K) (ks : List K) → has key ks ≡ true → length (erase key ks) + 1 ≡ length ks
  unfolding has erase
  length-erase key [] h = absurd (ground arith)
  length-erase key (k ∷ ks) h = ground (arith, length-erase key ks)

  pub length-erase-le : (key : K) (ks : List K) → length (erase key ks) ≤ length ks
  unfolding erase
  length-erase-le key [] = omega arith
  length-erase-le key (k ∷ ks) = ground (arith, length-erase-le key ks)

  pub erase_absent : (key : K) (ks : List K) → has key ks ≡ false → erase key ks ≡ ks
  unfolding has erase
  erase_absent key [] h = refl
  erase_absent key (k ∷ ks) h = ground (arith, erase_absent key ks)

module _ {ℓ} {K : Type ℓ} where
  -- `l.Back()`
  unfoldable pub back : List K → Option K
  back [] = none
  back (k ∷ []) = some k
  back (k ∷ j ∷ ks) = back (j ∷ ks)

module _ {ℓ} {K : Type ℓ} ⦃keyed : Keyed K⦄ where
  pub has-back : (ks : List K) {key : K} → back ks ≡ some key → has key ks ≡ true
  unfolding has back
  has-back [] h = absurd (ground arith)
  has-back (k ∷ []) {key} h = ground (arith, keyed.same_iff k key)
  has-back (k ∷ j ∷ ks) {key} h = ground (arith, has-back (j ∷ ks) h)

  pub back_total : (k : K) (ks : List K) → (key : K) × (back (k ∷ ks) ≡ some key)
  unfolding back
  back_total k [] = (k, refl)
  back_total k (j ∷ ks) = back_total j ks

  pub has-append : (key : K) (ks js : List K) → has key (ks ++ js) ≡ (has key ks || has key js)
  unfolding has
  has-append key [] js = refl
  has-append key (k ∷ ks) js = ground (arith, has-append key ks js)

  pub append-IsOnce :
      (key : K) (ks : List K) → has key ks ≡ false → IsOnce ks → IsOnce (ks ++ key ∷ [])
  unfolding has
  append-IsOnce key [] h once = (refl, tt)
  append-IsOnce key (k ∷ ks) h once = (
    ground (arith, once.0, has-append k ks (key ∷ []), keyed.same_iff k key, keyed.same_iff key k),
    append-IsOnce key ks (ground arith) once.1,
  )

  pub has-get_elem? :
      (ks : List K) (i : ℕ) {key : K} → get_elem? ks i ≡ some key → has key ks ≡ true
  unfolding has
  has-get_elem? [] i h = absurd (ground arith)
  has-get_elem? (k ∷ ks) zero {key} h = ground (arith, keyed.same_iff k key)
  has-get_elem? (k ∷ ks) (suc i) {key} h = ground (arith, has-get_elem? ks i h)
