-- ===== src/Hnsw/Valid.antt =====
-- The well-formed indexes of internal/index/hnsw/hnsw.go, and what reading one of them gives.
use magnitude.Common.{
  ℕ, ◌+◌, ◌≤◌, ◌<◌, ◌≡◌, refl, Bool, none, some, List, [], ◌∷◌, ◌++◌, length, get_elem?,
  get_elem?_total, get_elem?-lt, slice, length-slice, nat_keyed, arith, Option-cases, inl, inr,
}
use magnitude.Common.Keys.{has}
use magnitude.Hnsw.{
  ◌>>=◌, All, Distances, Node, Top, HnswIndex, node_vector, friends_at, friends_on,
}
use magnitude.Hnsw.Walk.{is_valid_id, node_distance}
use magnitude.Hnsw.Link.{max_conn}

-- The number of layers of a node: none for an index out of range.
unfoldable pub layers_of : List Node → ℕ → ℕ
layers_of nodes i = elim (get_elem? nodes i) [ none ↦ 0 | some node ↦ length node.friends ]

-- Whether a node has a layer.
abbrev pub HasLayer : {F : Type 0} → HnswIndex F → ℕ → ℕ → Type 0
HasLayer h layer i = layer < layers_of h.nodes i

pub record IsValid {F : Type 0} (h : HnswIndex F) : Type 0 where
  -- `mMax0` is the larger bound.
  pub room : h.m ≤ h.m_max0
  -- Every node has an offset, and a vector lies behind every offset.
  pub offsets : length h.nodes ≤ length h.vector_offsets
  pub vectors :
      (i offset : ℕ)
      → get_elem? h.vector_offsets i ≡ some offset
      → offset + h.dim ≤ length h.vector_slab
  -- A friend on a layer has the layer, and a node has no more friends than the bound.
  pub links :
      (i layer : ℕ) (fs : List ℕ)
      → friends_at h i layer ≡ some fs
      → (length fs ≤ max_conn h layer) × All (HasLayer h layer) fs
  -- The entry point has the top layer.
  pub entry : (top : Top) → h.top ≡ some top → HasLayer h top.max_level top.entry_point

module _ {A : Type 0} where
  pub All-map : (P Q : A → Type 0) → ((a : A) → P a → Q a) → (xs : List A) → All P xs → All Q xs
  All-map P Q f [] h = tt
  All-map P Q f (x ∷ xs) h = (f x h.0, All-map P Q f xs h.1)

  pub All-append : (P : A → Type 0) (xs ys : List A) → All P xs → All P ys → All P (xs ++ ys)
  All-append P [] ys p q = q
  All-append P (x ∷ xs) ys p q = (p.0, All-append P xs ys p.1 q)

pub layers_of-lt : (nodes : List Node) (layer i : ℕ) → layer < layers_of nodes i → i < length nodes
unfolding layers_of
layers_of-lt nodes layer i h = elim (Option-cases (get_elem? nodes i)) [
  | inl absent ↦ absurd (ground arith)
  | inr (node, found) ↦ get_elem?-lt nodes i node found
]

pub node_vector_at :
    {F : Type 0} (h : HnswIndex F) (i offset : ℕ)
    → get_elem? h.vector_offsets i ≡ some offset
    → offset + h.dim ≤ length h.vector_slab
    → node_vector h i ≡ some (slice offset h.dim h.vector_slab)
unfolding node_vector
node_vector_at h i offset found fits = rw (node_vector, found) (ground arith)

friends_on-none :
    {F : Type 0} (h : HnswIndex F) (i layer : ℕ) (node : Node)
    → get_elem? h.nodes i ≡ some node
    → get_elem? node.friends layer ≡ none
    → friends_on h i layer ≡ some []
unfolding friends_on
friends_on-none h i layer node found no_layer = rw (friends_on, found, no_layer) refl

friends_on-some :
    {F : Type 0} (h : HnswIndex F) (i layer : ℕ) (node : Node) (fs : List ℕ)
    → get_elem? h.nodes i ≡ some node
    → get_elem? node.friends layer ≡ some fs
    → (friends_on h i layer ≡ some fs) × (friends_at h i layer ≡ some fs)
unfolding friends_on friends_at
friends_on-some h i layer node fs found stored =
    (rw (friends_on, found, stored) refl, rw (friends_at, found, ◌>>=◌) stored)

module _ {F : Type 0} (h : HnswIndex F) (v : IsValid h) where
  pub node_vector_total :
      (i : ℕ)
      → i < length h.nodes
      → (vec : List F) × (node_vector h i ≡ some vec) × (length vec ≡ h.dim)
  node_vector_total i known =
      let (offset, found) = get_elem?_total h.vector_offsets i (omega (arith, v.offsets)) in
      (
        slice offset h.dim h.vector_slab,
        node_vector_at h i offset found (v.vectors i offset found),
        length-slice offset h.dim h.vector_slab (v.vectors i offset found),
      )

  pub node_distance_total :
      (ds : Distances F) (query : List F) (i : ℕ)
      → i < length h.nodes
      → (d : F) × (node_distance ds h query i ≡ some d)
  unfolding node_distance
  node_distance_total ds query i known =
      let (vec, found, _) = node_vector_total i known in
      (ds.distance_func h.metric query vec, rw (node_distance, found) refl)

  pub is_valid_id_total :
      (valid_ids : List ℕ) (i : ℕ)
      → i < length h.nodes
      → (b : Bool) × (is_valid_id h valid_ids i ≡ some b)
  unfolding is_valid_id
  is_valid_id_total valid_ids i known =
      let (node, found) = get_elem?_total h.nodes i known in
      (has node.id valid_ids, rw (is_valid_id, found) refl)

  max_conn-le : (layer : ℕ) → max_conn h layer ≤ h.m_max0
  max_conn-le layer = ground (arith, v.room)

  -- The friends of a node on any layer.
  pub friends_on_total :
      (i layer : ℕ)
      → i < length h.nodes
      → (fs : List ℕ) × (friends_on h i layer ≡ some fs)
        × (length fs ≤ h.m_max0)
        × All (HasLayer h layer) fs
  friends_on_total i layer known =
      let (node, found) = get_elem?_total h.nodes i known in
      elim (Option-cases (get_elem? node.friends layer)) [
        | inl no_layer ↦ ([], friends_on-none h i layer node found no_layer, omega arith, tt)
        | inr (fs, stored) ↦
            (let (on, at) = friends_on-some h i layer node fs found stored in
              let linked = v.links i layer fs at in
              (fs, on, omega (arith, linked.0, max_conn-le layer), linked.1))
      ]
