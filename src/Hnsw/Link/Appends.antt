-- ===== src/Hnsw/Link/Appends.antt =====
-- The node that `insertLocked` of internal/index/hnsw/hnsw.go appends, before it is linked.
use magnitude.Common.{
  ℕ, zero, suc, ◌+◌, ◌≤◌, ◌<◌, ◌≡◌, ◌⊎◌, refl, sym, ap, subst, ◌∙◌, some, List, [], ◌∷◌, ◌++◌,
  length, length-append, get_elem?, replicate, arith, Option-cases, inl, inr,
}
use magnitude.Hnsw.{All, Node, HnswIndex}
use magnitude.Hnsw.Link.{max_conn, append_node}
use magnitude.Hnsw.Valid.{layers_of, layers_of-lt, HasLayer, IsValid, All-map}
use magnitude.Hnsw.Link.Friends.{some_inj, friends_in, friends_at_lem, id_at}

module _ {A : Type 0} where
  pub get_elem?-append_old :
      (xs ys : List A) (i : ℕ) → i < length xs → get_elem? (xs ++ ys) i ≡ get_elem? xs i
  get_elem?-append_old [] ys i h = elim h [ ]
  get_elem?-append_old (x ∷ xs) ys zero h = refl
  get_elem?-append_old (x ∷ xs) ys (suc i) h = get_elem?-append_old xs ys i (omega arith)

  pub get_elem?-append_last : (xs : List A) (y : A) → get_elem? (xs ++ y ∷ []) (length xs) ≡ some y
  get_elem?-append_last [] y = refl
  get_elem?-append_last (x ∷ xs) y = get_elem?-append_last xs y

  get_elem?-append_cases :
      (xs : List A) (y : A) (i : ℕ) (z : A)
      → get_elem? (xs ++ y ∷ []) i ≡ some z
      → (get_elem? xs i ≡ some z) ⊎ ((i ≡ length xs) × (y ≡ z))
  get_elem?-append_cases [] y zero z h = inr (refl, some_inj h)
  get_elem?-append_cases [] y (suc i) z h = inl h
  get_elem?-append_cases (x ∷ xs) y zero z h = inl h
  get_elem?-append_cases (x ∷ xs) y (suc i) z h = elim (get_elem?-append_cases xs y i z h) [
    | inl old ↦ inl old
    | inr (at, new) ↦ inr (ap suc at, new)
  ]

  get_elem?-replicate :
      (n : ℕ) (a : A) (i : ℕ) (b : A) → get_elem? (replicate n a) i ≡ some b → a ≡ b
  get_elem?-replicate zero a i b h = absurd (ground arith)
  get_elem?-replicate (suc n) a zero b h = some_inj h
  get_elem?-replicate (suc n) a (suc i) b h = get_elem?-replicate n a i b h

-- The node without friends.
abbrev pub new_node : ℕ → ℕ → Node
new_node id level = record { id = id; level = level; friends = replicate (level + 1) [] }

module _ (nodes : List Node) (x : Node) where
  layers_of-append_old :
      (i : ℕ) → i < length nodes → layers_of (nodes ++ x ∷ []) i ≡ layers_of nodes i
  unfolding layers_of
  layers_of-append_old i h = rw (layers_of, get_elem?-append_old nodes (x ∷ []) i h) refl

  pub layers_of-append_last : layers_of (nodes ++ x ∷ []) (length nodes) ≡ length x.friends
  unfolding layers_of
  layers_of-append_last = rw (layers_of, get_elem?-append_last nodes x) refl

  has_layer-append :
      (layer i : ℕ) → layer < layers_of nodes i → layer < layers_of (nodes ++ x ∷ []) i
  has_layer-append layer i on =
      omega (arith, layers_of-append_old i (layers_of-lt nodes layer i on))

  friends_in_found :
      (i layer : ℕ) (fs : List ℕ) (node : Node)
      → friends_in (nodes ++ x ∷ []) i layer ≡ some fs
      → get_elem? (nodes ++ x ∷ []) i ≡ some node
      → get_elem? node.friends layer ≡ some fs
  unfolding friends_in
  friends_in_found i layer fs node at found = ground (arith, at, found)

  friends_in-append_cases :
      (i layer : ℕ) (fs : List ℕ)
      → friends_in (nodes ++ x ∷ []) i layer ≡ some fs
      → (friends_in nodes i layer ≡ some fs) ⊎ (get_elem? x.friends layer ≡ some fs)
  unfolding friends_in
  friends_in-append_cases i layer fs at = elim (Option-cases (get_elem? (nodes ++ x ∷ []) i)) [
    | inl absent ↦ absurd (ground (arith, absent, at))
    | inr (node, found) ↦
        (let stored : get_elem? node.friends layer ≡ some fs =
            friends_in_found i layer fs node at found in
          elim (get_elem?-append_cases nodes x i node found) [
            | inl old ↦ inl (rw (friends_in, old) stored)
            | inr (_, new) ↦ inr (subst (λ n. get_elem? n.friends layer ≡ some fs) (sym new) stored)
          ])
  ]

pub id_at-append_old :
    (nodes : List Node) (x : Node) (i : ℕ)
    → i < length nodes
    → id_at (nodes ++ x ∷ []) i ≡ id_at nodes i
unfolding id_at
id_at-append_old nodes x i h = rw (id_at, get_elem?-append_old nodes (x ∷ []) i h) refl

pub id_at-append_last :
    (nodes : List Node) (x : Node) → id_at (nodes ++ x ∷ []) (length nodes) ≡ some x.id
unfolding id_at
id_at-append_last nodes x = rw (id_at, get_elem?-append_last nodes x) refl

module _ {F : Type 0} (h : HnswIndex F) (v : IsValid h) (id : ℕ) (vector : List F) (level : ℕ)
    (fits : length vector ≡ h.dim) where
  append_node-links :
      (i layer : ℕ) (fs : List ℕ)
      → friends_in (h.nodes ++ new_node id level ∷ []) i layer ≡ some fs
      → (length fs ≤ max_conn h layer)
        × All (λ f. layer < layers_of (h.nodes ++ new_node id level ∷ []) f) fs
  append_node-links i layer fs at =
      elim (friends_in-append_cases h.nodes (new_node id level) i layer fs at) [
        | inl old ↦
            (let linked = v.links i layer fs (friends_at_lem h i layer ∙ old) in
              (
                linked.0,
                All-map (HasLayer h layer)
                    (λ f. layer < layers_of (h.nodes ++ new_node id level ∷ []) f)
                    (λ f on. has_layer-append h.nodes (new_node id level) layer f on) fs linked.1,
              ))
        | inr new ↦
            (let empty = get_elem?-replicate (level + 1) [] layer fs new in
              subst
                (λ gs.
                  (length gs ≤ max_conn h layer)
                  × All (λ f. layer < layers_of (h.nodes ++ new_node id level ∷ []) f) gs)
                empty (omega arith, tt))
      ]

  pub append_node-IsValid : IsValid (append_node h id vector level)
  unfolding append_node
  append_node-IsValid = record {
    room = v.room;
    offsets = omega (
      arith,
      v.offsets,
      length-append h.nodes (new_node id level ∷ []),
      length-append h.vector_offsets (length h.vector_slab ∷ []),
    );
    vectors = λ i offset at.
        elim (get_elem?-append_cases h.vector_offsets (length h.vector_slab) i offset at) [
          | inl old ↦ omega (arith, v.vectors i offset old, length-append h.vector_slab vector)
          | inr (_, new) ↦ omega (arith, new, fits, length-append h.vector_slab vector)
        ];
    links = λ i layer fs at.
        append_node-links i layer fs
          (sym (friends_at_lem (append_node h id vector level) i layer) ∙ at);
    entry = λ top at.
        has_layer-append h.nodes (new_node id level) top.max_level top.entry_point (v.entry top at);
  }
