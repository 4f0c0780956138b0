-- ===== src/Hnsw/Drains/Orders.antt =====
-- The insertions that the calls of the HNSW index have accepted, and the order in which they arrive.
use mathlib.Core.List.{Perm, perm_append_comm, append-nil, append_assoc}
use mathlib.Core.List.Perm
use magnitude.Common.{
  ℕ, zero, suc, ◌≡◌, ◌⊎◌, refl, sym, ap, subst, ◌∙◌, Bool, true, false, ◌||◌, some, List, [], ◌∷◌,
  ◌++◌, length, get_elem?, ltb, ◌==◌, nat_keyed, arith, inl, inr,
}
use magnitude.Hnsw.{All, PendingInsert}
use magnitude.Hnsw.Valid.{All-append}
use magnitude.Hnsw.Link.Friends.{some_inj}
use magnitude.Hnsw.Drains.{Call, insert_call, take_call, apply_call, drop_at, hold}

-- What a call adds: `Insert` of a vector of the right length.
unfoldable pub accepted_by : {F : Type 0} → ℕ → Call F → List (PendingInsert F)
accepted_by dim (insert_call id vector) = elim (length vector == dim) [
  | true ↦ (record { id = id; vector = vector }) ∷ []
  | false ↦ []
]
accepted_by dim take_call = []
accepted_by dim (apply_call n levels vt) = []

unfoldable pub accepted : {F : Type 0} → ℕ → List (Call F) → List (PendingInsert F)
unfolding accepted_by
accepted dim [] = []
accepted dim (c ∷ cs) = accepted_by dim c ++ accepted dim cs

-- Whether the call names a batch that is not the oldest of those held.
unfoldable pub is_late : {F : Type 0} → Call F → Bool
is_late (insert_call id vector) = false
is_late take_call = false
is_late (apply_call n levels vt) = ltb 0 n

unfoldable pub overtakes : {F : Type 0} → List (Call F) → Bool
unfolding is_late
overtakes [] = false
overtakes (c ∷ cs) = is_late c || overtakes cs

module _ {A : Type 0} where
  abbrev pub joined : List (List A) → List A
  joined [] = []
  joined (b ∷ bs) = b ++ joined bs

  -- The same elements, and in the same order unless some batch was late.
  abbrev pub IsArranged : Bool → List A → List A → Type 0
  IsArranged late xs ys = Perm xs ys × ((late ≡ true) ⊎ (xs ≡ ys))

  pub eq-IsArranged : (late : Bool) (xs ys : List A) → xs ≡ ys → IsArranged late xs ys
  eq-IsArranged late xs ys e = (subst (Perm xs) e (Perm.refl xs), inr e)

  pub IsArranged-trans :
      (a b : Bool) (xs ys zs more : List A)
      → IsArranged a ys zs
      → IsArranged b xs (ys ++ more)
      → IsArranged (a || b) xs (zs ++ more)
  IsArranged-trans a b xs ys zs more (p, e) (q, f) = (
    Perm.trans q (Perm.append_right more p),
    ground (arith, e, f, λ (h : ys ≡ zs). ap (λ l. l ++ more) h),
  )

  joined-append : (xs ys : List (List A)) → joined (xs ++ ys) ≡ joined xs ++ joined ys
  joined-append [] ys = refl
  joined-append (x ∷ xs) ys =
      rw (joined-append xs ys) (sym (append_assoc x (joined xs) (joined ys)))

  joined-hold :
      (held : List (List A)) (batch : List A) → joined (hold held batch) ≡ joined held ++ batch
  joined-hold held [] = sym (append-nil (joined held))
  joined-hold held (x ∷ xs) =
      joined-append held ((x ∷ xs) ∷ []) ∙ ap (λ l. joined held ++ l) (append-nil (x ∷ xs))

  -- A batch that leaves the list comes to its front.
  joined-drop_at-perm :
      (held : List (List A)) (n : ℕ) (batch : List A)
      → get_elem? held n ≡ some batch
      → Perm (batch ++ joined (drop_at held n)) (joined held)
  joined-drop_at-perm [] n batch at = absurd (ground (arith, at))
  joined-drop_at-perm (b ∷ bs) zero batch at =
      subst (λ l. Perm (batch ++ joined bs) (l ++ joined bs)) (sym (some_inj at))
        (Perm.refl (batch ++ joined bs))
  joined-drop_at-perm (b ∷ bs) (suc n) batch at =
      let rest = joined (drop_at bs n) in
      subst (λ l. Perm l (b ++ joined bs)) (append_assoc batch b rest)
        (Perm.trans (Perm.append_right rest (perm_append_comm batch b)) (
          subst (λ l. Perm l (b ++ joined bs)) (sym (append_assoc b batch rest))
            (Perm.append_left b (joined-drop_at-perm bs n batch at))))

  pub hold-IsArranged :
      (order waiting : List A) (held : List (List A))
      → IsArranged false
          (order ++ (joined (hold held waiting) ++ []))
          ((order ++ (joined held ++ waiting)) ++ [])
  hold-IsArranged order waiting held =
      eq-IsArranged false (order ++ (joined (hold held waiting) ++ []))
        ((order ++ (joined held ++ waiting)) ++ []) (simp (joined-hold, append-nil))

  pub append-IsArranged :
      (order waiting more : List A) (held : List (List A))
      → IsArranged false
          (order ++ (joined held ++ (waiting ++ more)))
          ((order ++ (joined held ++ waiting)) ++ more)
  append-IsArranged order waiting more held =
      eq-IsArranged false (order ++ (joined held ++ (waiting ++ more)))
        ((order ++ (joined held ++ waiting)) ++ more) (simp append_assoc)

  -- The oldest batch is at the front already.
  drop_at-on_time :
      (order waiting batch : List A) (held : List (List A)) (n : ℕ)
      → get_elem? held n ≡ some batch
      → (ltb 0 n ≡ true)
        ⊎ ((order ++ batch) ++ (joined (drop_at held n) ++ waiting)
            ≡ (order ++ (joined held ++ waiting)) ++ [])
  drop_at-on_time order waiting batch [] n at = absurd (ground (arith, at))
  drop_at-on_time order waiting batch (b ∷ bs) (suc n) at = inl (ground arith)
  drop_at-on_time order waiting batch (b ∷ bs) zero at =
      inr (rw (some_inj at) (simp (append_assoc, append-nil)))

  pub drop_at-IsArranged :
      (order waiting batch : List A) (held : List (List A)) (n : ℕ)
      → get_elem? held n ≡ some batch
      → IsArranged
          (ltb 0 n)
          ((order ++ batch) ++ (joined (drop_at held n) ++ waiting))
          ((order ++ (joined held ++ waiting)) ++ [])
  drop_at-IsArranged order waiting batch held n at =
      let left = joined (drop_at held n) in
      let front : order ++ ((batch ++ left) ++ waiting) ≡ (order ++ batch) ++ (left ++ waiting) =
        simp append_assoc in
      let same = sym (append-nil (order ++ (joined held ++ waiting))) in
      (
        subst (Perm ((order ++ batch) ++ (left ++ waiting))) same (
            subst (λ l. Perm l (order ++ (joined held ++ waiting))) front
              (Perm.append_left order
                (Perm.append_right waiting (joined-drop_at-perm held n batch at)))),
        drop_at-on_time order waiting batch held n at,
      )

  pub get_elem?-All :
      (P : List A → Type 0) (held : List (List A)) (n : ℕ) (batch : List A)
      → get_elem? held n ≡ some batch
      → All P held
      → P batch
  get_elem?-All P [] n batch at all = absurd (ground (arith, at))
  get_elem?-All P (b ∷ bs) zero batch at all = subst P (some_inj at) all.0
  get_elem?-All P (b ∷ bs) (suc n) batch at all = get_elem?-All P bs n batch at all.1

  pub drop_at-All :
      (P : List A → Type 0) (held : List (List A)) (n : ℕ) → All P held → All P (drop_at held n)
  drop_at-All P [] n all = tt
  drop_at-All P (b ∷ bs) zero all = all.1
  drop_at-All P (b ∷ bs) (suc n) all = (all.0, drop_at-All P bs n all.1)

  pub hold-All :
      (P : List A → Type 0) (held : List (List A)) (batch : List A)
      → All P held
      → P batch
      → All P (hold held batch)
  hold-All P held [] all p = all
  hold-All P held (x ∷ xs) all p = All-append P held ((x ∷ xs) ∷ []) all (p, tt)
