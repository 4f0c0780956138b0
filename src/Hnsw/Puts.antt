-- ===== src/Hnsw/Puts.antt =====
-- Maps from ids to vectors, and what insertions of internal/index/hnsw/hnsw.go do to them.
use magnitude.Common.{
  ℕ, ◌≡◌, refl, sym, ap, fun_ext, ◌∙◌, Option, none, some, List, [], ◌∷◌, ◌++◌, length, ◌==◌,
  nat_keyed, if◌then◌else◌,
}
use magnitude.Hnsw.{All, PendingInsert, HnswIndex}
use magnitude.Hnsw.Valid.{IsValid}
use magnitude.Hnsw.Vectors.{IsIndexed}

module _ {F : Type 0} where
  -- A map that keeps the vector of an id it has.
  unfoldable pub put_new : (ℕ → Option (List F)) → PendingInsert F → ℕ → Option (List F)
  put_new m p at = elim (m p.id) [
    | none ↦ if p.id == at then some p.vector else m at
    | some old ↦ m at
  ]

  unfoldable pub put_all : (ℕ → Option (List F)) → List (PendingInsert F) → ℕ → Option (List F)
  put_all m [] at = m at
  put_all m (p ∷ ps) at = put_all (put_new m p) ps at

  abbrev pub HasDim : ℕ → PendingInsert F → Type 0
  HasDim dim p = length p.vector ≡ dim

  pub record IsWellFormed (h : HnswIndex F) : Type 0 where
    pub valid : IsValid h
    pub indexed : IsIndexed h
    pub pending : All (HasDim h.dim) h.dirty

  put_new-present :
      (m : ℕ → Option (List F)) (p : PendingInsert F) (old : List F)
      → m p.id ≡ some old
      → (at : ℕ) → put_new m p at ≡ m at
  unfolding put_new
  put_new-present m p old found at = rw (put_new, found) refl

  pub put_new-absent :
      (m : ℕ → Option (List F)) (p : PendingInsert F)
      → m p.id ≡ none
      → (at : ℕ) → put_new m p at ≡ (if p.id == at then some p.vector else m at)
  unfolding put_new
  put_new-absent m p absent at = rw (put_new, absent) refl

  pub put_all-same :
      (m n : ℕ → Option (List F)) (ps : List (PendingInsert F))
      → ((at : ℕ) → m at ≡ n at)
      → (at : ℕ) → put_all m ps at ≡ put_all n ps at
  put_all-same m n ps same at = ap (λ f. put_all f ps at) (fun_ext same)

  pub put_all-append :
      (m : ℕ → Option (List F)) (ps qs : List (PendingInsert F)) (at : ℕ)
      → put_all m (ps ++ qs) at ≡ put_all (put_all m ps) qs at
  unfolding put_all
  put_all-append m [] qs at = refl
  put_all-append m (p ∷ ps) qs at = put_all-append (put_new m p) ps qs at

  pub put_all-cons :
      (m : ℕ → Option (List F)) (p : PendingInsert F) (ps : List (PendingInsert F)) (at : ℕ)
      → put_all m (p ∷ ps) at ≡ put_all (put_new m p) ps at
  unfolding put_all
  put_all-cons m p ps at = refl

  pub put_all-skip :
      (m : ℕ → Option (List F)) (p : PendingInsert F) (ps : List (PendingInsert F)) (old : List F)
      → m p.id ≡ some old
      → (at : ℕ) → put_all m ps at ≡ put_all m (p ∷ ps) at
  put_all-skip m p ps old found at =
      sym (put_all-same (put_new m p) m ps (put_new-present m p old found) at)
      ∙ sym (put_all-cons m p ps at)
