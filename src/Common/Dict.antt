-- ===== src/Common/Dict.antt =====
-- Go's `map[K]V` as an association list. Its order stands for the order of a `range` over the map,
-- which Go leaves open.
use Prim.Native.Nat.{suc, ◌+◌, ◌≤◌}
use mathlib.Core.Path.{◌≡◌, refl, ap}
use mathlib.Core.Logic.{inl, inr}
use mathlib.Core.Option.{Option, none, some}
use mathlib.Core.List.{List, [], ◌∷◌}
use native.Mathlib.Omega.{arith}
use magnitude.Common.Tests.{Keyed, ◌==◌, if◌then◌else◌, Bool-cases}
use magnitude.Common.Lists.{length}

abbrev pub Dict {ℓ κ} : Type ℓ → Type κ → Type (ℓ ⊔ κ)
Dict K V = List (K × V)

module _ {ℓ κ} {K : Type ℓ} {V : Type κ} ⦃keyed : Keyed K⦄ where
  -- `v, ok := m[k]`
  unfoldable pub lookup : K → Dict K V → Option V
  lookup key [] = none
  lookup key ((at, val) ∷ entries) = if at == key then some val else lookup key entries

  -- `m[k] = v`
  unfoldable pub insert : K → V → Dict K V → Dict K V
  insert key val [] = (key, val) ∷ []
  insert key val ((at, old) ∷ entries) =
      if at == key then (key, val) ∷ entries else (at, old) ∷ insert key val entries

  -- `delete(entries, key)`
  unfoldable pub delete : K → Dict K V → Dict K V
  delete key [] = []
  delete key ((at, val) ∷ entries) =
      let rest = delete key entries in if at == key then rest else (at, val) ∷ rest

  pub lookup-insert :
      (key at : K) (val : V) (entries : Dict K V)
      → lookup at (insert key val entries) ≡ (if key == at then some val else lookup at entries)
  unfolding lookup insert
  lookup-insert key at val [] = refl
  lookup-insert key at val ((i, old) ∷ entries) = ground (
    arith,
    keyed.same_iff key at,
    keyed.same_iff i key,
    keyed.same_iff i at,
    lookup-insert key at val entries,
  )

  pub lookup-delete :
      (key at : K) (entries : Dict K V)
      → lookup at (delete key entries) ≡ (if key == at then none else lookup at entries)
  unfolding lookup delete
  lookup-delete key at [] = ground arith
  lookup-delete key at ((i, old) ∷ entries) = ground (
    arith,
    keyed.same_iff key at,
    keyed.same_iff i key,
    keyed.same_iff i at,
    lookup-delete key at entries,
  )

  -- No key twice: what Go's maps guarantee.
  abbrev pub IsDistinct : Dict K V → Type κ
  IsDistinct [] = Unit
  IsDistinct ((key, val) ∷ entries) = (lookup key entries ≡ none) × IsDistinct entries

  pub insert-IsDistinct :
      (key : K) (val : V) (entries : Dict K V)
      → IsDistinct entries
      → IsDistinct (insert key val entries)
  unfolding insert lookup
  insert-IsDistinct key val [] d = (refl, tt)
  insert-IsDistinct key val ((at, old) ∷ entries) d = elim (Bool-cases (at == key)) [
    | inl same ↦ rw same (ground (arith, keyed.same_iff at key, d.0), d.1)
    | inr other ↦ rw other (
      ground
          (arith, keyed.same_iff at key, keyed.same_iff key at, lookup-insert key at val entries),
      insert-IsDistinct key val entries d.1,
    )
  ]

  pub delete-IsDistinct :
      (key : K) (entries : Dict K V) → IsDistinct entries → IsDistinct (delete key entries)
  unfolding delete
  delete-IsDistinct key [] d = tt
  delete-IsDistinct key ((at, old) ∷ entries) d = elim (Bool-cases (at == key)) [
    | inl same ↦ rw same (delete-IsDistinct key entries d.1)
    | inr other ↦
        rw other (ground (arith, lookup-delete key at entries), delete-IsDistinct key entries d.1)
  ]

  pub delete_absent :
      (key : K) (entries : Dict K V) → lookup key entries ≡ none → delete key entries ≡ entries
  unfolding lookup delete
  delete_absent key [] h = refl
  delete_absent key ((at, val) ∷ entries) h = ground (arith, delete_absent key entries)

  -- The size of the map after a write and after a deletion.
  pub length-insert :
      (key : K) (val : V) (entries : Dict K V)
      → length (insert key val entries)
        ≡ elim (lookup key entries) [ none ↦ suc (length entries) | some _ ↦ length entries ]
  unfolding lookup insert
  length-insert key val [] = refl
  length-insert key val ((at, old) ∷ entries) = ground (arith, length-insert key val entries)

  pub length-delete :
      (key : K) (entries : Dict K V) (val : V)
      → IsDistinct entries
      → lookup key entries ≡ some val
      → length (delete key entries) + 1 ≡ length entries
  unfolding lookup delete
  length-delete key [] val d h = absurd (ground arith)
  length-delete key ((at, old) ∷ entries) val d h = elim (Bool-cases (at == key)) [
    | inl same ↦ rw same (
        ground (
          arith,
          keyed.same_iff at key,
          d.0,
          ap length (delete_absent key entries (ground (arith, keyed.same_iff at key, d.0))),
        ))
    | inr other ↦ rw other (ground (arith, length-delete key entries val d.1))
  ]

  pub length-delete-le :
      (key : K) (entries : Dict K V) → length (delete key entries) ≤ length entries
  unfolding delete
  length-delete-le key [] = omega arith
  length-delete-le key ((at, old) ∷ entries) = ground (arith, length-delete-le key entries)
