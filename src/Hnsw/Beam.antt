-- ===== src/Hnsw/Beam.antt =====
-- `searchLayer` and `searchLayerBitmap` of internal/index/hnsw/hnsw.go, the beam search of one layer.
-- They differ in the test that keeps a friend.
pub mod Collects
pub mod Offers
pub mod Rounds
pub mod Reached
pub mod Blind
use magnitude.Common.{
  ℕ, zero, suc, ◌+◌, ◌%◌, Bool, true, false, ◌&&◌, Option, none, some, List, [], ◌∷◌, length, ltb,
  leb, ◌==◌, nat_keyed, if◌then◌else◌,
}
use magnitude.Hnsw.{◌>>=◌, Distances, Candidate, Heap, HnswIndex, node_vector, friends_on}
use magnitude.Hnsw.Tracker.{Tracker, grow, is_visited, mark}
use magnitude.Hnsw.Walk.{is_valid_id, node_distance}

-- The heaps `cands` and `results`, the visited nodes, and how often the context was asked.
pub record Beam (F : Type 0) : Type 0 where
  pub cands : List (Candidate F)
  pub results : List (Candidate F)
  pub tracker : Tracker
  pub tick : ℕ

pub data Progress (F : Type 0) : Type 0 where
  going stopped : Beam F → Progress F

-- `validIDs`, which may be nil, and the bitmap.
unfoldable pub keep_valid : {F : Type 0} → HnswIndex F → Option (List ℕ) → ℕ → Option Bool
unfolding is_valid_id
keep_valid h none i = some true
keep_valid h (some valid_ids) i = is_valid_id h valid_ids i

unfoldable keep_bitmap : (ℕ → Bool) → ℕ → Option Bool
keep_bitmap filter i = some (filter i)

-- `(*results)[0]`
abbrev pub root : {A : Type 0} → List A → Option A
root [] = none
root (x ∷ xs) = some x

module _ (keep : ℕ → Option Bool) where
  -- The loop that collects the unvisited friends.
  unfoldable pub collect_unvisited : Tracker → List ℕ → Option (List ℕ × Tracker)
  unfolding grow is_visited mark
  collect_unvisited vt [] = some ([], vt)
  collect_unvisited vt (f ∷ fs) =
      let grown = grow vt f in
      elim (is_visited grown f) [
        | true ↦ collect_unvisited grown fs
        | false ↦ do
          kept ← keep f
          (unvisited, marked) ← collect_unvisited (mark grown f) fs
          some (if kept then f ∷ unvisited else unvisited, marked)
      ]

-- The results in rising order: the last popped comes first.
unfoldable pub pop_all : {A : Type 0} → Heap A → ℕ → List A → List A → Option (List A)
pop_all heap zero h sorted = some sorted
pop_all heap (suc n) h sorted = do (a, rest) ← heap.pop h; pop_all heap n rest (a ∷ sorted)

module _ {F : Type 0} (ds : Distances F) (nearest furthest : Heap (Candidate F)) where
  module _ (ef : ℕ) where
    -- `results.Len() < ef || d < (*results)[0].dist`
    unfoldable pub has_place : F → List (Candidate F) → Option Bool
    has_place d results =
        if ltb (length results) ef
        then some true
        else (do worst ← root results; some (ds.less d worst.dist))

    -- `if results.Len() > ef { heap.Pop(results) }`
    unfoldable pub keep_best : Beam F → Option (Beam F)
    keep_best b = elim (ltb ef (length b.results)) [
      | true ↦ do (worst, rest) ← furthest.pop b.results; some (record b { results = rest })
      | false ↦ some b
    ]

    unfoldable pub offer : Candidate F → Beam F → Option (Beam F)
    unfolding has_place keep_best
    offer c b = do
      place ← has_place c.dist b.results
      elim place [
        | true ↦
            keep_best
              (record b { cands = nearest.push c b.cands; results = furthest.push c b.results })
        | false ↦ some b
      ]

    -- The loop over the unvisited friends, from the i-th. Every hundredth asks the context.
    unfoldable pub offer_all : (ℕ → Bool) → ℕ → List (Candidate F) → Beam F → Option (Progress F)
    unfolding offer
    offer_all done i [] b = some (going b)
    offer_all done i (c ∷ cs) b =
        let asks = i % 100 == 0 in
        elim (asks && done b.tick) [
          | true ↦ some (stopped b)
          | false ↦ do
            next ← offer c (if asks then record b { tick = b.tick + 1 } else b)
            offer_all done (i + 1) cs next
        ]

  module _ (h : HnswIndex F) (query : List F) where
    -- The batch of distances of the unvisited friends.
    unfoldable pub measure : List ℕ → Option (List (Candidate F))
    unfolding node_vector
    measure [] = some []
    measure (f ∷ fs) = do
      vec ← node_vector h f
      rest ← measure fs
      some ((record { node_idx = f; dist = ds.batch_distance h.metric query vec }) ∷ rest)

    module _ (keep : ℕ → Option Bool) (ef layer : ℕ) (done : ℕ → Bool) where
      -- The body of the loop for a candidate that is explored. The buffers hold `mMax0` vectors.
      unfoldable pub explore : Candidate F → Beam F → Option (Progress F)
      unfolding collect_unvisited measure offer_all friends_on
      explore c b = do
        friends ← friends_on h c.node_idx layer
        (unvisited, marked) ← collect_unvisited keep b.tracker friends
        elim (leb (length unvisited) h.m_max0) [
          | true ↦ do
            measured ← measure unvisited
            offer_all ef done 0 measured (record b { tracker = marked })
          | false ↦ none
        ]

      -- `results.Len() >= ef && c.dist > (*results)[0].dist`
      unfoldable pub is_beyond : Candidate F → List (Candidate F) → Option Bool
      is_beyond c results =
          if leb ef (length results)
          then (do worst ← root results; some (ds.less worst.dist c.dist))
          else some false

      -- `for cands.Len() > 0`
      unfoldable pub beam_loop : ℕ → Beam F → Option (Beam F)
      unfolding explore is_beyond
      beam_loop zero b = none
      beam_loop (suc fuel) b = elim b.cands [
        | [] ↦ some b
        | _ ∷ _ ↦ do
          (c, rest) ← nearest.pop b.cands
          beyond ← is_beyond c b.results
          elim beyond [
            | true ↦ some (record b { cands = rest })
            | false ↦ do
              progress ← explore c (record b { cands = rest })
              elim progress [ stopped last ↦ some last | going next ↦ beam_loop fuel next ]
          ]
      ]

      -- Both heaps hold the entry point, which is marked.
      abbrev pub start_beam : Tracker → ℕ → ℕ → F → Beam F
      start_beam vt tick ep d = record {
        cands = (record { node_idx = ep; dist = d }) ∷ [];
        results = (record { node_idx = ep; dist = d }) ∷ [];
        tracker = mark (grow vt ep) ep;
        tick = tick;
      }

      unfoldable pub beam_search : Tracker → ℕ → ℕ → Option (List (Candidate F) × Tracker)
      unfolding beam_loop pop_all grow mark node_distance
      beam_search vt tick ep = do
        d ← node_distance ds h query ep
        b ← beam_loop (length h.nodes + 2) (start_beam vt tick ep d)
        sorted ← pop_all furthest (length b.results) b.results []
        some (sorted, b.tracker)

    unfoldable pub search_layer :
        (ℕ → Bool)
        → ℕ
        → ℕ
        → ℕ
        → ℕ
        → Tracker
        → Option (List ℕ)
        → Option (List (Candidate F) × Tracker)
    unfolding beam_search keep_valid
    search_layer done tick ep ef layer vt valid_ids =
        beam_search (keep_valid h valid_ids) ef layer done vt tick ep

    unfoldable pub search_layer_bitmap :
        (ℕ → Bool) → ℕ → ℕ → ℕ → ℕ → Tracker → (ℕ → Bool) → Option (List (Candidate F) × Tracker)
    unfolding beam_search keep_bitmap
    search_layer_bitmap done tick ep ef layer vt filter =
        beam_search (keep_bitmap filter) ef layer done vt tick ep
