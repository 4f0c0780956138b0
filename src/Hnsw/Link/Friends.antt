-- ===== src/Hnsw/Link/Friends.antt =====
-- What writing the friends of a node does to an index of internal/index/hnsw/hnsw.go.
use magnitude.Common.{
  ℕ, ◌≤◌, ◌<◌, ◌≡◌, ◌⊎◌, refl, sym, ap, subst, ◌∙◌, true, false, Option, none, some, List, length,
  get_elem?, set, get_elem?_total, get_elem?-set_self, get_elem?-set_ne, length-set, ◌==◌,
  nat_keyed, nat_beq_iff, arith, Bool-cases, Option-cases, inl, inr,
}
use magnitude.Hnsw.{◌>>=◌, All, Node, HnswIndex, friends_at, set_friends}
use magnitude.Hnsw.Link.{max_conn}
use magnitude.Hnsw.Valid.{layers_of, layers_of-lt, HasLayer, IsValid, All-map}

pub some_inj : {A : Type 0} {a b : A} → some a ≡ some b → a ≡ b
some_inj {A} {a} {b} e = ap (λ o. elim o [ none ↦ a | some x ↦ x ]) e

-- The id of a node.
unfoldable pub id_at : List Node → ℕ → Option ℕ
id_at nodes i = elim (get_elem? nodes i) [ none ↦ none | some node ↦ some node.id ]

-- The friends of a node on a layer.
unfoldable pub friends_in : List Node → ℕ → ℕ → Option (List ℕ)
friends_in nodes i layer = elim (get_elem? nodes i) [
  | none ↦ none
  | some node ↦ get_elem? node.friends layer
]

pub friends_at_lem :
    {F : Type 0} (h : HnswIndex F) (i layer : ℕ) → friends_at h i layer ≡ friends_in h.nodes i layer
unfolding friends_at friends_in
friends_at_lem h i layer = elim (Option-cases (get_elem? h.nodes i)) [
  | inl absent ↦ rw (friends_at, friends_in, absent, ◌>>=◌) refl
  | inr (node, found) ↦ rw (friends_at, friends_in, found, ◌>>=◌) refl
]

-- Nodes that differ in their friends at most.
pub record Relinked (nodes next : List Node) : Type 0 where
  pub count : length next ≡ length nodes
  pub layers : (i : ℕ) → layers_of next i ≡ layers_of nodes i
  pub ids : (i : ℕ) → id_at next i ≡ id_at nodes i

pub Relinked-refl : (nodes : List Node) → Relinked nodes nodes
Relinked-refl nodes = record { count = refl; layers = λ _. refl; ids = λ _. refl }

pub Relinked-trans : (a b c : List Node) → Relinked a b → Relinked b c → Relinked a c
Relinked-trans a b c p q = record {
  count = q.count ∙ p.count;
  layers = λ i. q.layers i ∙ p.layers i;
  ids = λ i. q.ids i ∙ p.ids i;
}

-- The list of nodes after a write.
abbrev pub with_friends : List Node → ℕ → ℕ → List ℕ → Node → List Node
with_friends nodes i layer fs node =
    set nodes i (record node { friends = set node.friends layer fs })

module _ (nodes : List Node) (i layer : ℕ) (fs : List ℕ) (node : Node)
    (found : get_elem? nodes i ≡ some node) (fits : i < length nodes) where
  stored_self :
      get_elem? (with_friends nodes i layer fs node) i
      ≡ some (record node { friends = set node.friends layer fs })
  stored_self =
      get_elem?-set_self nodes i (record node { friends = set node.friends layer fs }) fits

  stored_other :
      (j : ℕ)
      → (i == j) ≡ false
      → get_elem? (with_friends nodes i layer fs node) j ≡ get_elem? nodes j
  stored_other j other =
      get_elem?-set_ne nodes i j (record node { friends = set node.friends layer fs })
        (ground arith)

  layers_same : (j : ℕ) → layers_of (with_friends nodes i layer fs node) j ≡ layers_of nodes j
  unfolding layers_of
  layers_same j = elim (Bool-cases (i == j)) [
    | inl same ↦
        subst (λ k. layers_of (with_friends nodes i layer fs node) k ≡ layers_of nodes k)
          ((nat_beq_iff i j).0 same)
          (rw (layers_of, stored_self, found) (length-set node.friends layer fs))
    | inr other ↦ rw (layers_of, stored_other j other) refl
  ]

  ids_same : (j : ℕ) → id_at (with_friends nodes i layer fs node) j ≡ id_at nodes j
  unfolding id_at
  ids_same j = elim (Bool-cases (i == j)) [
    | inl same ↦
        subst (λ k. id_at (with_friends nodes i layer fs node) k ≡ id_at nodes k)
          ((nat_beq_iff i j).0 same) (rw (id_at, stored_self, found) refl)
    | inr other ↦ rw (id_at, stored_other j other) refl
  ]

  with_friends-Relinked : Relinked nodes (with_friends nodes i layer fs node)
  with_friends-Relinked = record {
    count = length-set nodes i (record node { friends = set node.friends layer fs });
    layers = layers_same;
    ids = ids_same;
  }

  stored_on :
      layer < length node.friends
      → (l : ℕ) → (layer == l) ≡ true
      → get_elem? (set node.friends layer fs) l ≡ some fs
  stored_on on l hit =
      subst (λ k. get_elem? (set node.friends layer fs) k ≡ some fs) ((nat_beq_iff layer l).0 hit)
        (get_elem?-set_self node.friends layer fs on)

  friends_in_self :
      (l : ℕ)
      → friends_in (with_friends nodes i layer fs node) i l
        ≡ get_elem? (set node.friends layer fs) l
  unfolding friends_in
  friends_in_self l = rw (friends_in, stored_self) refl

  friends_in_old : (l : ℕ) → friends_in nodes i l ≡ get_elem? node.friends l
  unfolding friends_in
  friends_in_old l = rw (friends_in, found) refl

  friends_in_other :
      (j l : ℕ)
      → (i == j) ≡ false
      → friends_in (with_friends nodes i layer fs node) j l ≡ friends_in nodes j l
  unfolding friends_in
  friends_in_other j l other = rw (friends_in, stored_other j other) refl

  -- What stands on a layer afterwards: the new friends, or what stood there.
  friends_in-with_friends :
      layer < length node.friends
      → (j l : ℕ) (gs : List ℕ) → friends_in (with_friends nodes i layer fs node) j l ≡ some gs
      → ((layer ≡ l) × (fs ≡ gs)) ⊎ (friends_in nodes j l ≡ some gs)
  friends_in-with_friends on j l gs at = elim (Bool-cases (i == j)) [
    | inr other ↦ inr (sym (friends_in_other j l other) ∙ at)
    | inl same ↦
        (let ij = (nat_beq_iff i j).0 same in
          let here =
            sym (friends_in_self l)
            ∙ subst (λ k. friends_in (with_friends nodes i layer fs node) k l ≡ some gs) (sym ij)
                at in
          elim (Bool-cases (layer == l)) [
            | inl hit ↦
                inl ((nat_beq_iff layer l).0 hit, some_inj (sym (stored_on on l hit) ∙ here))
            | inr miss ↦ inr (
                subst (λ k. friends_in nodes k l ≡ some gs) ij
                  (friends_in_old l
                    ∙ sym (get_elem?-set_ne node.friends layer l fs (ground arith))
                    ∙ here))
          ])
  ]

pub friends_in_stored :
    (nodes : List Node) (i layer : ℕ) (node : Node) (fs : List ℕ)
    → get_elem? nodes i ≡ some node
    → get_elem? node.friends layer ≡ some fs
    → friends_in nodes i layer ≡ some fs
unfolding friends_in
friends_in_stored nodes i layer node fs found on = rw (friends_in, found) on

pub set_friends-stored :
    {F : Type 0} (h : HnswIndex F) (i layer : ℕ) (fs old : List ℕ) (node : Node)
    → get_elem? h.nodes i ≡ some node
    → get_elem? node.friends layer ≡ some old
    → set_friends h i layer fs ≡ some (record h { nodes = with_friends h.nodes i layer fs node })
unfolding set_friends
set_friends-stored h i layer fs old node found on = rw (set_friends, found, ◌>>=◌, on) refl

-- The index with other nodes.
abbrev pub with_nodes : {F : Type 0} → HnswIndex F → List Node → HnswIndex F
with_nodes h nodes = record h { nodes = nodes }

friends_at-with_nodes :
    {F : Type 0} (h : HnswIndex F) (nodes : List Node) (i layer : ℕ)
    → friends_at (with_nodes h nodes) i layer ≡ friends_in nodes i layer
friends_at-with_nodes h nodes i layer = friends_at_lem (with_nodes h nodes) i layer

-- A node's layers, as the list that holds their friends.
pub layer_stored :
    (nodes : List Node) (i layer : ℕ)
    → layer < layers_of nodes i
    → (node : Node) × (fs : List ℕ) × (get_elem? nodes i ≡ some node)
      × (get_elem? node.friends layer ≡ some fs)
      × (layer < length node.friends)
unfolding layers_of
layer_stored nodes i layer on = elim (Option-cases (get_elem? nodes i)) [
  | inl absent ↦ absurd (ground (arith, absent, on))
  | inr (node, found) ↦
      (let long : layer < length node.friends = ground (arith, found, on) in
        let (fs, at) = get_elem?_total node.friends layer long in (node, fs, found, at, long))
]

-- The layers of friends stay.
pub All-moved :
    (nodes next : List Node) (layer : ℕ)
    → Relinked nodes next
    → (fs : List ℕ) → All (λ f. layer < layers_of nodes f) fs
    → All (λ f. layer < layers_of next f) fs
All-moved nodes next layer r fs ok =
    All-map (λ f. layer < layers_of nodes f) (λ f. layer < layers_of next f)
      (λ f on. rw (r.layers f) on) fs ok

module _ {F : Type 0} (h : HnswIndex F) (v : IsValid h) where
  abbrev Fits : List Node → ℕ → List ℕ → Type 0
  Fits nodes layer fs =
      (length fs ≤ max_conn h layer) × All (HasLayer (with_nodes h nodes) layer) fs

  -- A write of few friends that have the layer keeps the index well formed.
  pub set_friends_total :
      (i layer : ℕ) (fs : List ℕ)
      → HasLayer h layer i
      → length fs ≤ max_conn h layer
      → All (HasLayer h layer) fs
      → (nodes : List Node) × (set_friends h i layer fs ≡ some (with_nodes h nodes))
        × Relinked h.nodes nodes
        × IsValid (with_nodes h nodes)
  set_friends_total i layer fs on few ok =
      let (node, old, found, stored, long) = layer_stored h.nodes i layer on in
      let nodes = with_friends h.nodes i layer fs node in
      let fits = layers_of-lt h.nodes layer i on in
      let r = with_friends-Relinked h.nodes i layer fs node found fits in
      (
        nodes,
        set_friends-stored h i layer fs old node found stored,
        r,
        record {
          room = v.room;
          offsets = omega (arith, v.offsets, r.count);
          vectors = v.vectors;
          links = λ j l gs at.
              elim (friends_in-with_friends h.nodes i layer fs node found fits long j l gs
                (sym (friends_at-with_nodes h nodes j l) ∙ at)) [
                  | inl (same, new) ↦
                      subst (λ k. Fits nodes k gs) same
                        (subst (Fits nodes layer) new (few, All-moved h.nodes nodes layer r fs ok))
                  | inr before ↦
                      (let linked = v.links j l gs (friends_at_lem h j l ∙ before) in
                        (linked.0, All-moved h.nodes nodes l r gs linked.1))
                ];
          entry = λ top at. rw (r.layers top.entry_point) (v.entry top at);
        },
      )
