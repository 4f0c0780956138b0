-- ===== src/Hnsw.antt =====
-- internal/index/hnsw/hnsw.go: the HNSW graph index. `F` is Go's `float32`. The functions of
-- internal/distance, which compute with it, are `Distances`; container/heap is `Heap`, with what it
-- documents in `IsHeap`. `none` is a run-time panic, or a loop that has used up its fuel. The level
-- that `randomLevel` draws is an argument. A slice expression is bounded by the length, where Go
-- bounds it by the capacity.
mod Tracker
mod Walk
mod Beam
mod Link
mod Search
mod Valid
mod Vectors
mod Puts
mod Contents
mod Drains
mod Runs
mod Deletes
mod Tests
use magnitude.Common.{
  ℕ, zero, ◌+◌, ◌-◌, ◌*◌, Bool, true, not, String, Option, none, some, List, [], ◌∷◌, ◌++◌, map,
  length, ◌≡◌, get_elem?, set, take, slice, ltb, leb, ◌==◌, nat_keyed, if◌then◌else◌,
}
use magnitude.Common.Dict
use magnitude.Common.Dict.{Dict}
use magnitude.Common.Keys.{has}
use magnitude.Common.Result.{Result, ok, err}
use magnitude.Flat.{is_metric}

-- The errors of the index, and the end of a context.
pub data Error : Type 0 where
  dimension_mismatch duplicate_id vector_not_found unknown_metric cancelled : Error

infixl 5 ◌>>=◌
abbrev pub ◌>>=◌ {ℓ κ} : {A : Type ℓ} {B : Type κ} → Option A → (A → Option B) → Option B
none >>= f = none
some a >>= f = f a

pub record Distances (F : Type 0) : Type 0 where
  -- `<` on floats.
  pub less : F → F → Bool
  -- `math.MaxFloat32`
  pub largest : F
  -- `GetDistanceFunc`, one row of `BatchDistance`, and `ScoreFromDistance`.
  pub distance_func : String → List F → List F → F
  pub batch_distance : String → List F → List F → F
  pub score_from : String → F → F

pub record Candidate (F : Type 0) : Type 0 where
  pub node_idx : ℕ
  pub dist : F

-- `heap.Push` and `heap.Pop` on a slice.
pub record Heap (A : Type 0) : Type 0 where
  pub push : A → List A → List A
  pub pop : List A → Option (A × List A)

abbrev pub All : {A : Type 0} → (A → Type 0) → List A → Type 0
All P [] = Unit
All P (x ∷ xs) = P x × All P xs

pub record Node : Type 0 where
  pub id : ℕ
  pub level : ℕ
  pub friends : List (List ℕ)

pub record PendingInsert (F : Type 0) : Type 0 where
  pub id : ℕ
  pub vector : List F

-- `entryPoint` and `maxLevel`, which the code sets together, to -1 while the graph is empty.
pub record Top : Type 0 where
  pub entry_point : ℕ
  pub max_level : ℕ

pub record HnswIndex (F : Type 0) : Type 0 where
  pub dim : ℕ
  pub metric : String
  pub m : ℕ
  pub m_max0 : ℕ
  pub ef_construction : ℕ
  pub ef_search : ℕ
  pub top : Option Top
  pub nodes : List Node
  pub id_to_node : Dict ℕ ℕ
  pub vector_slab : List F
  pub vector_offsets : List ℕ
  pub deleted : List ℕ
  pub dirty : List (PendingInsert F)

-- A value that is not positive stands for the default.
abbrev positive_or : ℕ → ℕ → ℕ
positive_or n default = if n == 0 then default else n

module _ {F : Type 0} where
  -- The index that `NewHNSWIndex` makes.
  abbrev pub empty_index : ℕ → ℕ → ℕ → ℕ → String → HnswIndex F
  empty_index dim m ef_construction ef_search metric = record {
    dim = dim;
    metric = metric;
    m = positive_or m 16;
    m_max0 = 2 * positive_or m 16;
    ef_construction = positive_or ef_construction 400;
    ef_search = positive_or ef_search 128;
    top = none;
    nodes = [];
    id_to_node = [];
    vector_slab = [];
    vector_offsets = [];
    deleted = [];
    dirty = [];
  }

  unfoldable pub new_hnsw_index : ℕ → ℕ → ℕ → ℕ → String → Result Error (HnswIndex F)
  unfolding is_metric
  new_hnsw_index dim m ef_construction ef_search metric =
      if dim == 0
      then err dimension_mismatch
      else if is_metric metric
      then ok (empty_index dim m ef_construction ef_search metric)
      else err unknown_metric

  -- `Insert`, which only buffers.
  unfoldable pub insert : HnswIndex F → ℕ → List F → Result Error (HnswIndex F)
  insert h id vector =
      if not (length vector == h.dim)
      then err dimension_mismatch
      else ok (record h { dirty = h.dirty ++ (record { id = id; vector = vector }) ∷ [] })

  unfoldable pub node_vector : HnswIndex F → ℕ → Option (List F)
  node_vector h i = elim (get_elem? h.vector_offsets i) [
    | none ↦ none
    | some offset ↦
        if leb (offset + h.dim) (length h.vector_slab)
        then some (slice offset h.dim h.vector_slab)
        else none
  ]

  -- `h.deleted[nodeIdx]`
  abbrev pub is_deleted : HnswIndex F → ℕ → Bool
  is_deleted h i = has i h.deleted

  -- `h.nodes[nodeIdx].friends[layer]`
  unfoldable pub friends_at : HnswIndex F → ℕ → ℕ → Option (List ℕ)
  friends_at h i layer = do node ← get_elem? h.nodes i; get_elem? node.friends layer

  -- The same under `if layer < len(h.nodes[nodeIdx].friends)`.
  unfoldable pub friends_on : HnswIndex F → ℕ → ℕ → Option (List ℕ)
  friends_on h i layer = elim (get_elem? h.nodes i) [
    | none ↦ none
    | some node ↦ elim (get_elem? node.friends layer) [ none ↦ some [] | some fs ↦ some fs ]
  ]

  -- `h.nodes[nodeIdx].friends[layer] = fs`
  unfoldable pub set_friends : HnswIndex F → ℕ → ℕ → List ℕ → Option (HnswIndex F)
  set_friends h i layer fs = do
    node ← get_elem? h.nodes i
    old ← get_elem? node.friends layer
    some (record h { nodes = set h.nodes i (record node { friends = set node.friends layer fs }) })

  unfoldable pub delete : HnswIndex F → ℕ → Result Error (HnswIndex F)
  delete h id = elim (Dict.lookup id h.id_to_node) [
    | none ↦ err vector_not_found
    | some i ↦ ok (record h { deleted = if has i h.deleted then h.deleted else i ∷ h.deleted })
  ]

  unfoldable pub node_index : HnswIndex F → ℕ → Option ℕ
  node_index h id = elim (Dict.lookup id h.id_to_node) [
    | none ↦ none
    | some i ↦ if is_deleted h i then none else some i
  ]

  -- The tombstones are nodes, so the difference is not negative.
  unfoldable pub len : HnswIndex F → ℕ
  len h = length h.nodes - length h.deleted + length h.dirty

  unfoldable set_distance_func : HnswIndex F → String → Result Error (HnswIndex F)
  unfolding is_metric
  set_distance_func h metric =
      if is_metric metric then ok (record h { metric = metric }) else err unknown_metric

  -- `make([]float32, h.dim)` and `copy`, of a vector that has that length.
  unfoldable export_entries : HnswIndex F → Dict ℕ ℕ → Option (Dict ℕ (List F))
  unfolding node_vector
  export_entries h [] = some []
  export_entries h ((id, i) ∷ entries) =
      let rest = export_entries h entries in
      if is_deleted h i
      then rest
      else (do vec ← node_vector h i; others ← rest; some ((id, vec) ∷ others))

  unfoldable export_vectors : HnswIndex F → Option (Dict ℕ (List F))
  unfolding export_entries
  export_vectors h = export_entries h h.id_to_node

-- What container/heap documents of `Push` and `Pop`: they rearrange the elements, and `Pop` takes one
-- of them out.
pub record IsHeap {A : Type 0} (heap : Heap A) : Type 1 where
  pub push-length : (a : A) (h : List A) → length (heap.push a h) ≡ length h + 1
  pub push-All : (P : A → Type 0) (a : A) (h : List A) → P a → All P h → All P (heap.push a h)
  pub pop_some :
      (a : A) (h : List A) → (b : A) × (rest : List A) × (heap.pop (a ∷ h) ≡ some (b, rest))
  pub pop-length :
      (h rest : List A) (a : A) → heap.pop h ≡ some (a, rest) → length h ≡ length rest + 1
  pub pop-All :
      (P : A → Type 0) (h rest : List A) (a : A)
      → heap.pop h ≡ some (a, rest)
      → All P h
      → P a × All P rest
