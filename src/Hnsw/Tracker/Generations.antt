-- ===== src/Hnsw/Tracker/Generations.antt =====
-- The generations of the visited tracker of internal/index/hnsw/hnsw.go: a new one forgets every visit,
-- also where the 32-bit counter wraps around.
use magnitude.Common.{
  ℕ, zero, suc, ◌+◌, ◌-◌, ◌%◌, ◌≤◌, ◌<◌, ◌≡◌, false, List, [], ◌∷◌, ◌++◌, length, get_elem?, set,
  replicate, ltb, ◌==◌, nat_keyed, arith, Bool-cases, inl, inr,
}
use magnitude.Hnsw.Tracker.{
  Tracker, fresh_tracker, uint32_size, zeros, next_gen, grow, or_zero, is_visited, mark,
}

abbrev AllBelow : List ℕ → ℕ → Type 0
AllBelow [] bound = Unit
AllBelow (g ∷ gens) bound = (g ≤ bound) × AllBelow gens bound

-- No generation is ahead of the current one, which fits 32 bits.
pub record IsValid (vt : Tracker) : Type 0 where
  pub past : AllBelow vt.generations vt.current_gen
  pub fits : vt.current_gen < uint32_size

or_zero-le :
    (gens : List ℕ) (bound i : ℕ) → AllBelow gens bound → or_zero (get_elem? gens i) ≤ bound
or_zero-le [] bound i h = omega arith
or_zero-le (g ∷ gens) bound zero h = h.0
or_zero-le (g ∷ gens) bound (suc i) h = or_zero-le gens bound i h.1

AllBelow-weaken : (gens : List ℕ) (a b : ℕ) → a ≤ b → AllBelow gens a → AllBelow gens b
AllBelow-weaken [] a b h below = tt
AllBelow-weaken (g ∷ gens) a b h below =
    (omega (arith, below.0), AllBelow-weaken gens a b h below.1)

zeros-AllBelow : (gens : List ℕ) (bound : ℕ) → AllBelow (zeros gens) bound
zeros-AllBelow [] bound = tt
zeros-AllBelow (g ∷ gens) bound = (omega arith, zeros-AllBelow gens bound)

replicate-AllBelow : (k bound : ℕ) → AllBelow (replicate k 0) bound
replicate-AllBelow zero bound = tt
replicate-AllBelow (suc k) bound = (omega arith, replicate-AllBelow k bound)

append-AllBelow :
    (gens : List ℕ) (k bound : ℕ) → AllBelow gens bound → AllBelow (gens ++ replicate k 0) bound
append-AllBelow [] k bound h = replicate-AllBelow k bound
append-AllBelow (g ∷ gens) k bound h = (h.0, append-AllBelow gens k bound h.1)

set-AllBelow :
    (gens : List ℕ) (i bound : ℕ) → AllBelow gens bound → AllBelow (set gens i bound) bound
set-AllBelow [] i bound h = tt
set-AllBelow (g ∷ gens) zero bound h = (omega arith, h.1)
set-AllBelow (g ∷ gens) (suc i) bound h = (h.0, set-AllBelow gens i bound h.1)

mark-IsValid : (vt : Tracker) (i : ℕ) → IsValid vt → IsValid (mark vt i)
unfolding mark
mark-IsValid vt i v = record {
  past = set-AllBelow vt.generations i vt.current_gen v.past;
  fits = v.fits;
}

pub grow-IsValid : (vt : Tracker) (i : ℕ) → IsValid vt → IsValid (grow vt i)
unfolding grow
grow-IsValid vt i v = elim (Bool-cases (ltb i (length vt.generations))) [
  | inl fits ↦ rw fits v
  | inr short ↦ rw short (record {
    past = append-AllBelow vt.generations (i + 1024 - length vt.generations) vt.current_gen v.past;
    fits = v.fits;
  })
]

module _ (vt : Tracker) (v : IsValid vt) where
  next_gen-IsValid : IsValid (next_gen vt)
  unfolding next_gen
  next_gen-IsValid = elim (Bool-cases ((vt.current_gen + 1) % uint32_size == 0)) [
    | inl wraps ↦ rw wraps (record { past = zeros-AllBelow vt.generations 1; fits = ground arith })
    | inr goes_on ↦ rw goes_on (record {
      past =
          AllBelow-weaken vt.generations vt.current_gen ((vt.current_gen + 1) % uint32_size)
            (ground (arith, v.fits)) v.past;
      fits = ground arith;
    })
  ]

  is_visited-next_gen : (i : ℕ) → is_visited (next_gen vt) i ≡ false
  unfolding is_visited next_gen
  is_visited-next_gen i = elim (Bool-cases ((vt.current_gen + 1) % uint32_size == 0)) [
    | inl wraps ↦
        rw wraps
          (ground (arith, or_zero-le (zeros vt.generations) 0 i (zeros-AllBelow vt.generations 0)))
    | inr goes_on ↦
        rw goes_on (ground (arith, v.fits, or_zero-le vt.generations vt.current_gen i v.past))
  ]

-- What a search does to a tracker of the pool.
pub data Step : Type 0 where
  visit_step : ℕ → Step
  next_gen_step : Step

unfoldable pub steps : Tracker → List Step → Tracker
unfolding mark grow next_gen
steps vt [] = vt
steps vt (visit_step i ∷ ss) = steps (mark (grow vt i) i) ss
steps vt (next_gen_step ∷ ss) = steps (next_gen vt) ss

steps-IsValid : (ss : List Step) (vt : Tracker) → IsValid vt → IsValid (steps vt ss)
unfolding steps
steps-IsValid [] vt v = v
steps-IsValid (visit_step i ∷ ss) vt v =
    steps-IsValid ss (mark (grow vt i) i) (mark-IsValid (grow vt i) i (grow-IsValid vt i v))
steps-IsValid (next_gen_step ∷ ss) vt v = steps-IsValid ss (next_gen vt) (next_gen-IsValid vt v)

-- After any visits and new generations of a tracker of the pool, also past the wrap-around of the
-- counter, a further new generation leaves no node visited.
pub next_gen_forgets :
    (ss : List Step) (i : ℕ) → is_visited (next_gen (steps fresh_tracker ss)) i ≡ false
next_gen_forgets ss i =
    is_visited-next_gen (steps fresh_tracker ss)
      (steps-IsValid ss fresh_tracker
        (record { past = replicate-AllBelow 1024 0; fits = omega arith }))
      i
