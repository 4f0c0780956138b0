-- ===== src/Common/Lists.antt =====
-- Lists measured and indexed by native numbers, and the slices of Go over them.
use Prim.Native.Nat.{ℕ, zero, suc, ◌+◌, ◌-◌, ◌≤◌, ◌<◌, min}
use mathlib.Core.Path.{◌≡◌, refl, ap}
use mathlib.Core.Logic.{◌≢◌}
use mathlib.Core.List.{List, [], ◌∷◌, ◌++◌}
use mathlib.Core.Option.{Option, none, some}
use native.Mathlib.Omega.{arith}

module _ {ℓ} {A : Type ℓ} where
  abbrev pub length : List A → ℕ
  length [] = 0
  length (x ∷ xs) = suc (length xs)

  abbrev pub get_elem? : List A → ℕ → Option A
  get_elem? [] i = none
  get_elem? (x ∷ xs) zero = some x
  get_elem? (x ∷ xs) (suc i) = get_elem? xs i

  abbrev pub set : List A → ℕ → A → List A
  set [] i v = []
  set (x ∷ xs) zero v = v ∷ xs
  set (x ∷ xs) (suc i) v = x ∷ set xs i v

  abbrev pub take : ℕ → List A → List A
  take zero xs = []
  take (suc n) [] = []
  take (suc n) (x ∷ xs) = x ∷ take n xs

  abbrev pub drop : ℕ → List A → List A
  drop zero xs = xs
  drop (suc n) [] = []
  drop (suc n) (x ∷ xs) = drop n xs

  abbrev pub replicate : ℕ → A → List A
  replicate zero a = []
  replicate (suc n) a = a ∷ replicate n a

  -- `copy(dst[off:], src)`: writes as far as both reach.
  abbrev pub copy_at : ℕ → List A → List A → List A
  copy_at zero [] dst = dst
  copy_at zero (x ∷ src) [] = []
  copy_at zero (x ∷ src) (y ∷ dst) = x ∷ copy_at zero src dst
  copy_at (suc off) src [] = []
  copy_at (suc off) src (y ∷ dst) = y ∷ copy_at off src dst

  -- `xs[off:off+n]`
  abbrev pub slice : ℕ → ℕ → List A → List A
  slice off n xs = take n (drop off xs)

module _ {ℓ} {A : Type ℓ} where
  pub length-append : (xs ys : List A) → length (xs ++ ys) ≡ length xs + length ys
  length-append [] ys = omega arith
  length-append (x ∷ xs) ys = omega (arith, length-append xs ys)

  pub length-take : (n : ℕ) (xs : List A) → length (take n xs) ≡ min n (length xs)
  length-take zero xs = omega arith
  length-take (suc n) [] = omega arith
  length-take (suc n) (x ∷ xs) = omega (arith, length-take n xs)

  pub length-drop : (n : ℕ) (xs : List A) → length (drop n xs) ≡ length xs - n
  length-drop zero xs = omega arith
  length-drop (suc n) [] = omega arith
  length-drop (suc n) (x ∷ xs) = omega (arith, length-drop n xs)

  pub length-replicate : (n : ℕ) (a : A) → length (replicate n a) ≡ n
  length-replicate zero a = refl
  length-replicate (suc n) a = ap suc (length-replicate n a)

  pub length-set : (xs : List A) (i : ℕ) (v : A) → length (set xs i v) ≡ length xs
  length-set [] i v = refl
  length-set (x ∷ xs) zero v = refl
  length-set (x ∷ xs) (suc i) v = ap suc (length-set xs i v)

  pub length-copy_at : (off : ℕ) (src dst : List A) → length (copy_at off src dst) ≡ length dst
  length-copy_at zero [] dst = refl
  length-copy_at zero (x ∷ src) [] = refl
  length-copy_at zero (x ∷ src) (y ∷ dst) = ap suc (length-copy_at zero src dst)
  length-copy_at (suc off) src [] = refl
  length-copy_at (suc off) src (y ∷ dst) = ap suc (length-copy_at off src dst)

  pub get_elem?-set_self :
      (xs : List A) (i : ℕ) (v : A) → i < length xs → get_elem? (set xs i v) i ≡ some v
  get_elem?-set_self [] i v h = elim h [ ]
  get_elem?-set_self (x ∷ xs) zero v h = refl
  get_elem?-set_self (x ∷ xs) (suc i) v h = get_elem?-set_self xs i v (omega arith)

  pub get_elem?-set_ne :
      (xs : List A) (i j : ℕ) (v : A) → i ≢ j → get_elem? (set xs i v) j ≡ get_elem? xs j
  get_elem?-set_ne [] i j v h = refl
  get_elem?-set_ne (x ∷ xs) zero zero v h = absurd (h refl)
  get_elem?-set_ne (x ∷ xs) zero (suc j) v h = refl
  get_elem?-set_ne (x ∷ xs) (suc i) zero v h = refl
  get_elem?-set_ne (x ∷ xs) (suc i) (suc j) v h = get_elem?-set_ne xs i j v (λ e. h (ap suc e))

  pub get_elem?_total : (xs : List A) (i : ℕ) → i < length xs → (a : A) × (get_elem? xs i ≡ some a)
  get_elem?_total [] i h = elim h [ ]
  get_elem?_total (x ∷ xs) zero h = (x, refl)
  get_elem?_total (x ∷ xs) (suc i) h = get_elem?_total xs i (omega arith)

  pub get_elem?-lt : (xs : List A) (i : ℕ) (a : A) → get_elem? xs i ≡ some a → i < length xs
  get_elem?-lt [] i a h = absurd (ground arith)
  get_elem?-lt (x ∷ xs) zero a h = omega arith
  get_elem?-lt (x ∷ xs) (suc i) a h = omega (arith, get_elem?-lt xs i a h)

  -- A copy at the front leaves alone what lies behind the source's length.
  pub get_elem?-copy_at_ge :
      (off : ℕ) (src dst : List A) (i : ℕ)
      → off + length src ≤ i
      → get_elem? (copy_at off src dst) i ≡ get_elem? dst i
  get_elem?-copy_at_ge zero [] dst i h = refl
  get_elem?-copy_at_ge zero (x ∷ src) [] i h = refl
  get_elem?-copy_at_ge zero (x ∷ src) (y ∷ dst) zero h = absurd (omega arith)
  get_elem?-copy_at_ge zero (x ∷ src) (y ∷ dst) (suc i) h =
      get_elem?-copy_at_ge zero src dst i (omega arith)
  get_elem?-copy_at_ge (suc off) src [] i h = refl
  get_elem?-copy_at_ge (suc off) src (y ∷ dst) zero h = absurd (omega arith)
  get_elem?-copy_at_ge (suc off) src (y ∷ dst) (suc i) h =
      get_elem?-copy_at_ge off src dst i (omega arith)
