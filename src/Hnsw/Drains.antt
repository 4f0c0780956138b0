-- ===== src/Hnsw/Drains.antt =====
-- `Insert` and the two critical sections of `drainDirtyBuffer` of internal/index/hnsw/hnsw.go, as calls
-- that goroutines make in any order. Between its sections a drain holds the batch that it has taken,
-- which is neither pending nor in the graph.
pub mod Orders
pub mod Moves
use magnitude.Common.{ℕ, zero, suc, Option, none, some, List, [], ◌∷◌, ◌++◌, get_elem?}
use magnitude.Common.Result.{ok, err}
use magnitude.Hnsw.{◌>>=◌, Distances, Candidate, Heap, PendingInsert, HnswIndex, insert}
use magnitude.Hnsw.Tracker.{Tracker}
use magnitude.Hnsw.Link.{take_batch, drain_batch}

-- The index, and the batches that drains hold, in the order in which they were taken.
pub record System (F : Type 0) : Type 0 where
  pub index : HnswIndex F
  pub held : List (List (PendingInsert F))

-- A call of `Insert`; the first section of a drain; and the second one of the drain that holds the batch
-- with the number given, with the levels that it draws and the tracker that the pool hands out.
pub data Call (F : Type 0) : Type 0 where
  insert_call : ℕ → List F → Call F
  take_call : Call F
  apply_call : ℕ → (ℕ → ℕ) → Tracker → Call F

module _ {ℓ} {A : Type ℓ} where
  abbrev pub drop_at : List A → ℕ → List A
  drop_at [] n = []
  drop_at (x ∷ xs) zero = xs
  drop_at (x ∷ xs) (suc n) = x ∷ drop_at xs n

  -- A drain that has taken nothing ends there.
  abbrev pub hold : List (List A) → List A → List (List A)
  hold held [] = held
  hold held (x ∷ xs) = held ++ (x ∷ xs) ∷ []

module _ {F : Type 0} (ds : Distances F) (nearest furthest : Heap (Candidate F)) where
  -- A refused insertion leaves the system, and so does the second section of no drain.
  unfoldable pub call : System F → Call F → Option (System F)
  unfolding insert take_batch drain_batch
  call s (insert_call id vector) = elim (insert s.index id vector) [
    | ok next ↦ some (record s { index = next })
    | err e ↦ some s
  ]
  call s take_call =
      let (left, batch) = take_batch s.index in
      some (record { index = left; held = hold s.held batch })
  call s (apply_call n levels vt) = elim (get_elem? s.held n) [
    | none ↦ some s
    | some batch ↦ do
      (next, used, drained) ← drain_batch ds nearest furthest levels s.index batch vt []
      some (record { index = next; held = drop_at s.held n })
  ]

  unfoldable pub run : System F → List (Call F) → Option (System F)
  unfolding call
  run s [] = some s
  run s (c ∷ cs) = do next ← call s c; run next cs
