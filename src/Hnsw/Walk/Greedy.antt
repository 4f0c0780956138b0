-- ===== src/Hnsw/Walk/Greedy.antt =====
-- The three greedy walks of internal/index/hnsw/hnsw.go end on the layer that they started on.
use magnitude.Common.{
  ℕ, ◌<◌, ◌≡◌, refl, Bool, true, not, ◌||◌, some, List, length, ◌==◌, nat_keyed, Bool-cases, inl,
  inr,
}
use magnitude.Hnsw.{◌>>=◌, Distances, HnswIndex, is_deleted}
use magnitude.Hnsw.Walk.{
  skip_deleted, skip_filtered, skip_bitmap, greedy_closest, greedy_closest_filtered,
  greedy_closest_bitmap,
}
use magnitude.Hnsw.Valid.{layers_of-lt, HasLayer, IsValid, is_valid_id_total}
use magnitude.Hnsw.Walk.Ends.{IsOrder, greedy_total, closest_friend_total}

module _ {F : Type 0} (ds : Distances F) (order : IsOrder ds.less) (h : HnswIndex F) (v : IsValid h)
    (query : List F) where
  skip_deleted-decides : (i : ℕ) → i < length h.nodes → (b : Bool) × (skip_deleted h i ≡ some b)
  unfolding skip_deleted
  skip_deleted-decides i known = (is_deleted h i, refl)

  skip_bitmap-decides :
      (filter : ℕ → Bool) (i : ℕ)
      → i < length h.nodes
      → (b : Bool) × (skip_bitmap h filter i ≡ some b)
  unfolding skip_bitmap
  skip_bitmap-decides filter i known = (is_deleted h i || not (filter i), refl)

  skip_filtered-decides :
      (valid_ids : List ℕ) (i : ℕ)
      → i < length h.nodes
      → (b : Bool) × (skip_filtered h valid_ids i ≡ some b)
  unfolding skip_filtered
  skip_filtered-decides valid_ids i known =
      let (valid, asked) = is_valid_id_total h v valid_ids i known in
      elim (Bool-cases (is_deleted h i)) [
        | inl gone ↦ (true, rw gone refl)
        | inr stays ↦ (not valid, rw (stays, asked, ◌>>=◌) refl)
      ]

  pub greedy_closest_total :
      (layer ep : ℕ)
      → HasLayer h layer ep
      → (next : ℕ) × (greedy_closest ds h query ep layer ≡ some next) × HasLayer h layer next
  unfolding greedy_closest
  greedy_closest_total layer ep on =
      greedy_total ds order h v query (skip_deleted h) skip_deleted-decides layer ep on

  pub greedy_closest_filtered_total :
      (valid_ids : List ℕ) (layer ep : ℕ)
      → HasLayer h layer ep
      → (next : ℕ) × (greedy_closest_filtered ds h query valid_ids ep layer ≡ some next)
        × HasLayer h layer next
  unfolding greedy_closest_filtered
  greedy_closest_filtered_total valid_ids layer start on =
      let skip = skip_filtered h valid_ids in
      let (ep, ends, on') =
        greedy_total ds order h v query skip (skip_filtered-decides valid_ids) layer start on in
      let (valid, asked) = is_valid_id_total h v valid_ids ep (layers_of-lt h.nodes layer ep on') in
      let (next, found, on'') =
        closest_friend_total ds order h v query skip (skip_filtered-decides valid_ids) layer ep
          on' in
      elim (Bool-cases (layer == 0)) [
        | inl bottom ↦ elim (Bool-cases valid) [
          | inl fits ↦ (ep, rw (ends, ◌>>=◌, bottom, asked, fits) refl, on')
          | inr misses ↦ (next, rw (ends, ◌>>=◌, bottom, asked, misses) found, on'')
        ]
        | inr above ↦ (ep, rw (ends, ◌>>=◌, above) refl, on')
      ]

  greedy_closest_bitmap_total :
      (filter : ℕ → Bool) (layer ep : ℕ)
      → HasLayer h layer ep
      → (next : ℕ) × (greedy_closest_bitmap ds h query filter ep layer ≡ some next)
        × HasLayer h layer next
  unfolding greedy_closest_bitmap
  greedy_closest_bitmap_total filter layer start on =
      let skip = skip_bitmap h filter in
      let (ep, ends, on') =
        greedy_total ds order h v query skip (skip_bitmap-decides filter) layer start on in
      let (next, found, on'') =
        closest_friend_total ds order h v query skip (skip_bitmap-decides filter) layer ep on' in
      elim (Bool-cases (filter ep)) [
        | inl fits ↦ (ep, rw (ends, ◌>>=◌, fits) refl, on')
        | inr misses ↦ (next, rw (ends, ◌>>=◌, misses) found, on'')
      ]
