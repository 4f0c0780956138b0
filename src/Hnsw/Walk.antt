-- ===== src/Hnsw/Walk.antt =====
-- The greedy walks of internal/index/hnsw/hnsw.go. The three variants differ in the friends they
-- skip and in the step that follows.
pub mod Counts
pub mod Ends
pub mod Greedy
use magnitude.Common.{
  ℕ, zero, suc, ◌+◌, Bool, true, false, not, ◌||◌, Option, none, some, List, [], ◌∷◌, length,
  get_elem?, ◌==◌, nat_keyed, if◌then◌else◌,
}
use magnitude.Common.Keys.{has}
use magnitude.Hnsw.{◌>>=◌, Distances, HnswIndex, node_vector, is_deleted, friends_on}

-- `ep`, `epDist` and `changed`, or `bestIdx` and `bestDist`.
pub record Standing (F : Type 0) : Type 0 where
  pub at : ℕ
  pub dist : F
  pub changed : Bool

-- `validIDs[h.nodes[nodeIdx].id]`
unfoldable pub is_valid_id : {F : Type 0} → HnswIndex F → List ℕ → ℕ → Option Bool
is_valid_id h valid_ids i = do node ← get_elem? h.nodes i; some (has node.id valid_ids)

-- The tests that make a walk skip a friend.
unfoldable pub skip_deleted : {F : Type 0} → HnswIndex F → ℕ → Option Bool
skip_deleted h i = some (is_deleted h i)

unfoldable pub skip_filtered : {F : Type 0} → HnswIndex F → List ℕ → ℕ → Option Bool
unfolding is_valid_id
skip_filtered h valid_ids i =
    if is_deleted h i then some true else (do valid ← is_valid_id h valid_ids i; some (not valid))

unfoldable pub skip_bitmap : {F : Type 0} → HnswIndex F → (ℕ → Bool) → ℕ → Option Bool
skip_bitmap h filter i = some (is_deleted h i || not (filter i))

module _ {F : Type 0} (ds : Distances F) (h : HnswIndex F) (query : List F) where
  unfoldable pub node_distance : ℕ → Option F
  node_distance i = do vec ← node_vector h i; some (ds.distance_func h.metric query vec)

  -- The loop over the friends of one node.
  unfoldable pub try_friends : (ℕ → Option Bool) → List ℕ → Standing F → Option (Standing F)
  unfolding node_distance
  try_friends skip [] s = some s
  try_friends skip (f ∷ fs) s = do
    skipped ← skip f
    elim skipped [
      | true ↦ try_friends skip fs s
      | false ↦ do
        d ← node_distance f
        try_friends skip fs
            (if ds.less d s.dist then record { at = f; dist = d; changed = true } else s)
    ]

  -- `for changed`
  unfoldable pub walk : (ℕ → Option Bool) → ℕ → ℕ → Standing F → Option ℕ
  unfolding try_friends
  walk skip layer zero s = none
  walk skip layer (suc fuel) s = do
    friends ← friends_on h s.at layer
    next ← try_friends skip friends (record s { changed = false })
    elim next.changed [ true ↦ walk skip layer fuel next | false ↦ some next.at ]

  unfoldable pub greedy : (ℕ → Option Bool) → ℕ → ℕ → Option ℕ
  unfolding walk node_distance
  greedy skip ep layer = do
    d ← node_distance ep
    walk skip layer (length h.nodes + 1) (record { at = ep; dist = d; changed = true })

  -- The search for the closest friend that is not skipped.
  unfoldable pub closest_friend : (ℕ → Option Bool) → ℕ → ℕ → Option ℕ
  unfolding try_friends
  closest_friend skip ep layer = do
    friends ← friends_on h ep layer
    best ← try_friends skip friends (record { at = ep; dist = ds.largest; changed = false })
    some best.at

  unfoldable pub greedy_closest : ℕ → ℕ → Option ℕ
  unfolding greedy skip_deleted
  greedy_closest ep layer = greedy (skip_deleted h) ep layer

  unfoldable pub greedy_closest_filtered : List ℕ → ℕ → ℕ → Option ℕ
  unfolding greedy closest_friend skip_filtered is_valid_id
  greedy_closest_filtered valid_ids start layer = do
    ep ← greedy (skip_filtered h valid_ids) start layer
    valid ← if layer == 0 then is_valid_id h valid_ids ep else some true
    if valid then some ep else closest_friend (skip_filtered h valid_ids) ep layer

  unfoldable pub greedy_closest_bitmap : (ℕ → Bool) → ℕ → ℕ → Option ℕ
  unfolding greedy closest_friend skip_bitmap
  greedy_closest_bitmap filter start layer = do
    ep ← greedy (skip_bitmap h filter) start layer
    if filter ep then some ep else closest_friend (skip_bitmap h filter) ep layer
