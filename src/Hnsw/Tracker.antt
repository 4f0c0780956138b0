-- ===== src/Hnsw/Tracker.antt =====
-- visitedTracker of internal/index/hnsw/hnsw.go, and the statements of `searchLayer` that grow and
-- mark it.
pub mod Visits
pub mod Generations
use magnitude.Common.{
  ℕ, ◌+◌, ◌-◌, ◌%◌, Bool, Option, none, some, List, [], ◌∷◌, ◌++◌, length, get_elem?, set,
  replicate, ltb, ◌==◌, nat_keyed, if◌then◌else◌,
}

pub record Tracker : Type 0 where
  pub generations : List ℕ
  pub current_gen : ℕ

-- The `New` of visitedPool.
abbrev pub fresh_tracker : Tracker
fresh_tracker = record { generations = replicate 1024 0; current_gen = 0 }

-- 2 ^ 32
abbrev pub uint32_size : ℕ
uint32_size = 4294967296

abbrev pub zeros : List ℕ → List ℕ
zeros [] = []
zeros (x ∷ xs) = 0 ∷ zeros xs

unfoldable pub next_gen : Tracker → Tracker
next_gen vt =
    let next = (vt.current_gen + 1) % uint32_size in
    if next == 0
    then record { generations = zeros vt.generations; current_gen = 1 }
    else record vt { current_gen = next }

-- `if i >= len(vt.generations) { newGen := make([]uint32, i+1024); copy(newGen, vt.generations) }`
unfoldable pub grow : Tracker → ℕ → Tracker
grow vt i = if ltb i (length vt.generations) then vt else record vt {
  generations = vt.generations ++ replicate (i + 1024 - length vt.generations) 0;
}

abbrev pub or_zero : Option ℕ → ℕ
or_zero none = 0
or_zero (some g) = g

-- `vt.generations[i] == vt.currentGen`, for an index in range or one that would read a grown zero.
unfoldable pub is_visited : Tracker → ℕ → Bool
is_visited vt i = or_zero (get_elem? vt.generations i) == vt.current_gen

-- `vt.generations[i] = vt.currentGen`, after the growth.
unfoldable pub mark : Tracker → ℕ → Tracker
mark vt i = record vt { generations = set vt.generations i vt.current_gen }
