-- ===== src/Hnsw/Walk/Counts.antt =====
-- Counts of the numbers below a bound that pass a test, such as the nodes that are nearer to a query.
use magnitude.Common.{
  ℕ, zero, suc, ◌+◌, ◌≤◌, ◌<◌, ◌≡◌, subst, Bool, true, false, ◌==◌, nat_keyed, if◌then◌else◌, arith,
  Bool-cases, inl, inr,
}

-- How many of the first n numbers pass a test.
unfoldable pub count_below : (ℕ → Bool) → ℕ → ℕ
count_below p zero = 0
count_below p (suc n) = (if p n then 1 else 0) + count_below p n

pub count_below-le : (p : ℕ → Bool) (n : ℕ) → count_below p n ≤ n
unfolding count_below
count_below-le p zero = omega arith
count_below-le p (suc n) = ground (arith, count_below-le p n)

module _ (p q : ℕ → Bool) (sub : (i : ℕ) → p i ≡ true → q i ≡ true) where
  count_below_mono : (n : ℕ) → count_below p n ≤ count_below q n
  unfolding count_below
  count_below_mono zero = omega arith
  count_below_mono (suc n) = ground (arith, sub n, count_below_mono n)

  pub count_below-lt :
      (i n : ℕ) → i < n → p i ≡ false → q i ≡ true → count_below p n < count_below q n
  unfolding count_below
  count_below-lt i zero h fails holds = elim h [ ]
  count_below-lt i (suc n) h fails holds = elim (Bool-cases (i == n)) [
    | inl last ↦
        (let at : i ≡ n = ground arith in
          (let fails' = subst (λ k. p k ≡ false) at fails in
            let holds' = subst (λ k. q k ≡ true) at holds in
            rw (fails', holds') (ground (arith, count_below_mono n))))
    | inr other ↦ ground (arith, sub n, count_below-lt i n (ground arith) fails holds)
  ]
