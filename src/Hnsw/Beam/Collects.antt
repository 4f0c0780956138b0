-- ===== src/Hnsw/Beam/Collects.antt =====
-- The beam search of internal/index/hnsw/hnsw.go comes to an end without a panic: every round takes a
-- candidate away, and a node becomes a candidate once. What it has reached are nodes of the layer.
use magnitude.Common.{
  ℕ, zero, suc, ◌+◌, ◌≤◌, ◌<◌, ◌≡◌, refl, sym, ap, ◌∙◌, Bool, true, false, Option, some, List, [],
  ◌∷◌, length, nat_keyed, if◌then◌else◌, arith, Bool-cases, inl, inr,
}
use magnitude.Hnsw.{◌>>=◌, All, Heap, IsHeap}
use magnitude.Hnsw.Tracker.{Tracker, grow, is_visited, mark}
use magnitude.Hnsw.Beam.{collect_unvisited, pop_all}
use magnitude.Hnsw.Tracker.Visits.{
  is_visited-grow, unvisited_below, unvisited_below-same, unvisited_below-mark,
}

module _ (keep : ℕ → Option Bool) where
  pub collect_unvisited-visited :
      (vt : Tracker) (f : ℕ) (fs : List ℕ)
      → is_visited (grow vt f) f ≡ true
      → collect_unvisited keep vt (f ∷ fs) ≡ collect_unvisited keep (grow vt f) fs
  unfolding collect_unvisited
  collect_unvisited-visited vt f fs visited = rw (collect_unvisited, visited) refl

  pub collect_unvisited-new :
      (vt : Tracker) (f : ℕ) (fs us : List ℕ) (marked : Tracker) (kept : Bool)
      → is_visited (grow vt f) f ≡ false
      → keep f ≡ some kept
      → collect_unvisited keep (mark (grow vt f) f) fs ≡ some (us, marked)
      → collect_unvisited keep vt (f ∷ fs) ≡ some (if kept then f ∷ us else us, marked)
  unfolding collect_unvisited
  collect_unvisited-new vt f fs us marked kept new asked rest =
      rw (collect_unvisited, new, asked, rest, ◌>>=◌) refl

module _ (n : ℕ) (keep : ℕ → Option Bool)
    (decides : (i : ℕ) → i < n → (b : Bool) × (keep i ≡ some b)) where
  -- What the loop over the friends collects, and what it costs.
  pub record Collected (P : ℕ → Type 0) (vt : Tracker) (fs us : List ℕ) (marked : Tracker)
      : Type 0 where
    pub all : All (λ i. P i × (keep i ≡ some true)) us
    pub few : length us ≤ length fs
    pub cost : length us + unvisited_below marked n ≤ unvisited_below vt n

  pub collect_unvisited_total :
      (P : ℕ → Type 0) (below : (i : ℕ) → P i → i < n) (fs : List ℕ) (vt : Tracker)
      → All P fs
      → (us : List ℕ) × (marked : Tracker) × (collect_unvisited keep vt fs ≡ some (us, marked))
        × Collected P vt fs us marked
  collect_unvisited_total P below [] vt ok = (
    [],
    vt,
    unfold collect_unvisited in refl,
    record { all = tt; few = omega arith; cost = omega arith },
  )
  collect_unvisited_total P below (f ∷ fs) vt ok = elim (Bool-cases (is_visited (grow vt f) f)) [
    | inl visited ↦
        (let (us, marked, at, c) = collect_unvisited_total P below fs (grow vt f) ok.1 in
          (
            us,
            marked,
            collect_unvisited-visited keep vt f fs visited ∙ at,
            record {
              all = c.all;
              few = omega (arith, c.few);
              cost =
                  omega
                    (arith, c.cost, unvisited_below-same vt (grow vt f) n (is_visited-grow vt f));
            },
          ))
    | inr new ↦
        (let (us, marked, at, c) = collect_unvisited_total P below fs (mark (grow vt f) f) ok.1 in
          let (kept, asked) = decides f (below f ok.0) in
          let used =
            unvisited_below-mark vt f n (below f ok.0) (sym (is_visited-grow vt f f) ∙ new) in
          (
            if kept then f ∷ us else us,
            marked,
            collect_unvisited-new keep vt f fs us marked kept new asked at,
            elim (Bool-cases kept) [
              | inl is ↦ rw is (record {
                all = ((ok.0, asked ∙ ap some is), c.all);
                few = omega (arith, c.few);
                cost = omega (arith, c.cost, used);
              })
              | inr isnt ↦ rw isnt (record {
                all = c.all;
                few = omega (arith, c.few);
                cost = omega (arith, c.cost, used);
              })
            ],
          ))
  ]

pub pop_all-step :
    {A : Type 0} (heap : Heap A) (n : ℕ) (h rest sorted : List A) (a : A)
    → heap.pop h ≡ some (a, rest)
    → pop_all heap (suc n) h sorted ≡ pop_all heap n rest (a ∷ sorted)
unfolding pop_all
pop_all-step heap n h rest sorted a popped = rw (popped, ◌>>=◌) refl

pub pop_all_total :
    {A : Type 0} (heap : Heap A) (is : IsHeap heap) (P : A → Type 0) (n : ℕ) (h sorted : List A)
    → length h ≡ n
    → All P h
    → All P sorted
    → (out : List A) × (pop_all heap n h sorted ≡ some out)
      × All P out
      × (length out ≡ n + length sorted)
pop_all_total heap is P zero h sorted len ok done =
    (sorted, unfold pop_all in refl, done, omega arith)
pop_all_total heap is P (suc n) [] sorted len ok done = absurd (omega arith)
pop_all_total heap is P (suc n) (x ∷ xs) sorted len ok done =
    let (a, rest, popped) = is.pop_some x xs in
    let (first, others) = is.pop-All P (x ∷ xs) rest a popped ok in
    let shorter = is.pop-length (x ∷ xs) rest a popped in
    let (out, at, all, long) =
      pop_all_total heap is P n rest (a ∷ sorted) (omega arith) others (first, done) in
    (out, pop_all-step heap n (x ∷ xs) rest sorted a popped ∙ at, all, omega arith)
