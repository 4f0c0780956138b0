-- ===== src/Hnsw/Tracker/Visits.antt =====
-- What the visited tracker of internal/index/hnsw/hnsw.go says after the growth, a mark and a new
-- generation.
use magnitude.Common.{
  ℕ, zero, suc, ◌+◌, ◌-◌, ◌≤◌, ◌<◌, ◌≡◌, ◌≢◌, refl, ap, ◌∙◌, true, false, List, [], ◌∷◌, ◌++◌,
  length, get_elem?, replicate, length-append, length-replicate, get_elem?-set_self,
  get_elem?-set_ne, ltb, ◌==◌, nat_keyed, nat_beq_iff, if◌then◌else◌, arith, Bool-cases, inl, inr,
}
use magnitude.Hnsw.Tracker.{Tracker, grow, or_zero, is_visited, mark}

pub or_zero-replicate : (k i : ℕ) → or_zero (get_elem? (replicate k 0) i) ≡ 0
or_zero-replicate zero i = refl
or_zero-replicate (suc k) zero = refl
or_zero-replicate (suc k) (suc i) = or_zero-replicate k i

or_zero-append :
    (gens : List ℕ) (k i : ℕ)
    → or_zero (get_elem? (gens ++ replicate k 0) i) ≡ or_zero (get_elem? gens i)
or_zero-append [] k i = or_zero-replicate k i
or_zero-append (g ∷ gens) k zero = refl
or_zero-append (g ∷ gens) k (suc i) = or_zero-append gens k i

pub is_visited-grow : (vt : Tracker) (i j : ℕ) → is_visited (grow vt i) j ≡ is_visited vt j
unfolding is_visited grow
is_visited-grow vt i j = elim (Bool-cases (ltb i (length vt.generations))) [
  | inl fits ↦ rw fits refl
  | inr short ↦ rw short (
      ap (λ g. g == vt.current_gen)
        (or_zero-append vt.generations (i + 1024 - length vt.generations) j))
]

length-grow : (vt : Tracker) (i : ℕ) → i < length (grow vt i).generations
unfolding grow
length-grow vt i = elim (Bool-cases (ltb i (length vt.generations))) [
  | inl fits ↦ rw fits (ground arith)
  | inr short ↦ rw short (
      ground (
        arith,
        length-append vt.generations (replicate (i + 1024 - length vt.generations) 0),
        length-replicate {A = ℕ} (i + 1024 - length vt.generations) 0,
      ))
]

current-grow : (vt : Tracker) (i : ℕ) → (grow vt i).current_gen ≡ vt.current_gen
unfolding grow
current-grow vt i = ground arith

is_visited-mark_self :
    (vt : Tracker) (i : ℕ) → i < length vt.generations → is_visited (mark vt i) i ≡ true
unfolding is_visited mark
is_visited-mark_self vt i h =
    rw (get_elem?-set_self vt.generations i vt.current_gen h) (ground arith)

is_visited-mark_ne : (vt : Tracker) (i j : ℕ) → i ≢ j → is_visited (mark vt i) j ≡ is_visited vt j
unfolding is_visited mark
is_visited-mark_ne vt i j h = rw (get_elem?-set_ne vt.generations i j vt.current_gen h) refl

pub is_visited-mark :
    (vt : Tracker) (i j : ℕ)
    → is_visited (mark (grow vt i) i) j ≡ (if i == j then true else is_visited vt j)
is_visited-mark vt i j = elim (Bool-cases (i == j)) [
  | inl same ↦
      rw same
        (rw ((nat_beq_iff i j).0 same) (is_visited-mark_self (grow vt j) j (length-grow vt j)))
  | inr other ↦
      rw other (is_visited-mark_ne (grow vt i) i j (ground arith) ∙ is_visited-grow vt i j)
]

-- How many of the first n nodes are not visited.
unfoldable pub unvisited_below : Tracker → ℕ → ℕ
unvisited_below vt zero = 0
unvisited_below vt (suc n) = (if is_visited vt n then 0 else 1) + unvisited_below vt n

pub unvisited_below-le : (vt : Tracker) (n : ℕ) → unvisited_below vt n ≤ n
unfolding unvisited_below
unvisited_below-le vt zero = omega arith
unvisited_below-le vt (suc n) = ground (arith, unvisited_below-le vt n)

pub unvisited_below-same :
    (vt next : Tracker) (n : ℕ)
    → ((j : ℕ) → is_visited next j ≡ is_visited vt j)
    → unvisited_below next n ≡ unvisited_below vt n
unfolding unvisited_below
unvisited_below-same vt next zero h = refl
unvisited_below-same vt next (suc n) h = ground (arith, h n, unvisited_below-same vt next n h)

unvisited_below-mark_ge :
    (vt : Tracker) (i n : ℕ) → n ≤ i → unvisited_below (mark (grow vt i) i) n ≡ unvisited_below vt n
unfolding unvisited_below
unvisited_below-mark_ge vt i zero h = refl
unvisited_below-mark_ge vt i (suc n) h =
    ground (arith, is_visited-mark vt i n, unvisited_below-mark_ge vt i n (omega arith))

-- A mark of an unvisited node uses it up.
pub unvisited_below-mark :
    (vt : Tracker) (i n : ℕ)
    → i < n
    → is_visited vt i ≡ false
    → unvisited_below (mark (grow vt i) i) n + 1 ≡ unvisited_below vt n
unfolding unvisited_below
unvisited_below-mark vt i zero h new = elim h [ ]
unvisited_below-mark vt i (suc n) h new = elim (Bool-cases (i == n)) [
  | inl last ↦ ground (arith, is_visited-mark vt i n, unvisited_below-mark_ge vt i n (ground arith))
  | inr other ↦
      ground (arith, is_visited-mark vt i n, unvisited_below-mark vt i n (ground arith) new)
]
