-- ===== src/Cluster/Ring/Owners.antt =====
-- The owners of the positions of the hash ring, and how joins change them.
use magnitude.Common.{
  ℕ, zero, suc, ◌+◌, ◌<◌, ◌≡◌, ◌≢◌, ◌⊎◌, refl, ap, ◌∙◌, Bool, true, false, ◌||◌, String, Option,
  none, some, List, [], ◌∷◌, ◌++◌, leb, ◌==◌, nat_keyed, string_keyed, arith, Bool-cases,
  Option-cases, inl, inr, nat_beq_iff,
}
use text.Mathlib.TextEquality.{eq_iff}
use magnitude.Common.Dict
use magnitude.Common.Dict.{Dict}
use magnitude.Common.Keys.{has, IsOnce, has-append, append-IsOnce}
use magnitude.Cluster.Ring.{
  HashRing, flag, is_member, insert_sorted, sort, add_vnode, add_vnodes, add_node,
}

abbrev pub is_some {ℓ} : {A : Type ℓ} → Option A → Bool
is_some none = false
is_some (some a) = true

-- The ring and the map of positions agree, every owner is a member, and no position stands twice.
pub record IsLinked (h : HashRing) : Type 0 where
  pub linked : (pos : ℕ) → has pos h.ring ≡ is_some (Dict.lookup pos h.node_map)
  pub owned : (pos : ℕ) (id : String) → Dict.lookup pos h.node_map ≡ some id → is_member h id ≡ true
  pub once : IsOnce h.ring

pub has-insert_sorted : (x y : ℕ) (ys : List ℕ) → has x (insert_sorted y ys) ≡ (has x (y ∷ ys))
unfolding insert_sorted has
has-insert_sorted x y [] = refl
has-insert_sorted x y (z ∷ zs) = ground (arith, has-insert_sorted x y zs)

pub has-sort : (x : ℕ) (xs : List ℕ) → has x (sort xs) ≡ has x xs
unfolding sort has
has-sort x [] = refl
has-sort x (y ∷ ys) = has-insert_sorted x y (sort ys) ∙ ground (arith, has-sort x ys)

pub insert_sorted-IsOnce :
    (x : ℕ) (xs : List ℕ) → has x xs ≡ false → IsOnce xs → IsOnce (insert_sorted x xs)
unfolding insert_sorted has
insert_sorted-IsOnce x [] h once = (refl, tt)
insert_sorted-IsOnce x (y ∷ ys) h once = elim (Bool-cases (leb x y)) [
  | inl before ↦ rw before (h, once)
  | inr after ↦ rw after (
    ground (arith, has-insert_sorted y x ys, nat_beq_iff x y, nat_beq_iff y x, once.0),
    insert_sorted-IsOnce x ys (ground arith) once.1,
  )
]

pub sort-IsOnce : (xs : List ℕ) → IsOnce xs → IsOnce (sort xs)
unfolding sort
sort-IsOnce [] once = tt
sort-IsOnce (x ∷ xs) once =
    insert_sorted-IsOnce x (sort xs) (has-sort x xs ∙ once.0) (sort-IsOnce xs once.1)

-- A position that is free is added, and one that another node owns is skipped.
pub add_vnode-taken :
    (h : HashRing) (hash : ℕ) (id other : String)
    → Dict.lookup hash h.node_map ≡ some other
    → other ≢ id
    → add_vnode h hash id ≡ h
unfolding add_vnode
add_vnode-taken h hash id other taken ne = ground (arith, eq_iff other id)

pub add_vnode-free :
    (h : HashRing) (hash : ℕ) (id : String)
    → Dict.lookup hash h.node_map ≡ none
    → add_vnode h hash id
      ≡ record h { ring = h.ring ++ hash ∷ []; node_map = Dict.insert hash id h.node_map }
unfolding add_vnode
add_vnode-free h hash id free = ground arith

pub add_vnode-IsLinked :
    (h : HashRing) (hash : ℕ) (id : String)
    → IsLinked h
    → is_member h id ≡ true
    → Dict.lookup hash h.node_map ≢ some id
    → IsLinked (add_vnode h hash id)
unfolding is_member has
add_vnode-IsLinked h hash id v m fresh = elim (Option-cases (Dict.lookup hash h.node_map)) [
  | inl free ↦ rw (add_vnode-free h hash id free) (record {
    linked = λ pos. ground (
      arith,
      nat_beq_iff hash pos,
      v.linked pos,
      has-append pos h.ring (hash ∷ []),
      Dict.lookup-insert hash pos id h.node_map,
    );
    owned = λ pos j. ground (arith, v.owned pos j, Dict.lookup-insert hash pos id h.node_map);
    once = append-IsOnce hash h.ring (ground (arith, v.linked hash)) v.once;
  })
  | inr (other, taken) ↦
      rw (add_vnode-taken h hash id other taken (λ e. fresh (taken ∙ ap some e))) v
]

-- A virtual node touches its own position only, and no membership.
pub add_vnode-lookup :
    (h : HashRing) (hash : ℕ) (id : String) (pos : ℕ)
    → Dict.lookup pos (add_vnode h hash id).node_map ≡ some id
    → (Dict.lookup pos h.node_map ≡ some id) ⊎ (pos ≡ hash)
unfolding add_vnode
add_vnode-lookup h hash id pos e =
    ground (arith, nat_beq_iff hash pos, Dict.lookup-insert hash pos id h.node_map)

pub add_vnode-nodes :
    (h : HashRing) (hash : ℕ) (id : String) → (add_vnode h hash id).nodes ≡ h.nodes
unfolding add_vnode
add_vnode-nodes h hash id = ground arith

module _ (sum32 : String → ℕ) (vnode_name : String → ℕ → String) where
  -- The positions of one node are all different: the hash does not collide on its virtual nodes.
  abbrev pub NoSelfCollision : ℕ → String → Type 0
  NoSelfCollision vnodes id =
      (i j : ℕ)
      → i < vnodes
      → j < vnodes
      → sum32 (vnode_name id i) ≡ sum32 (vnode_name id j)
      → i ≡ j

  pub add_vnodes-IsLinked :
      (left i : ℕ) (id : String) (h : HashRing)
      → NoSelfCollision (i + left) id
      → IsLinked h
      → is_member h id ≡ true
      → ((pos : ℕ)
          → Dict.lookup pos h.node_map ≡ some id
          → (j : ℕ) × (j < i) × (pos ≡ sum32 (vnode_name id j)))
      → IsLinked (add_vnodes sum32 vnode_name left i id h)
        × ((add_vnodes sum32 vnode_name left i id h).nodes ≡ h.nodes)
  unfolding add_vnodes is_member
  add_vnodes-IsLinked zero i id h apart v m own = (v, refl)
  add_vnodes-IsLinked (suc left) i id h apart v m own =
      let hash = sum32 (vnode_name id i) in
      let h' = add_vnode h hash id in
      let fresh = λ (e : Dict.lookup hash h.node_map ≡ some id).
        (let (j, lt, at) = own hash e in
          let same = apart i j (omega arith) (omega arith) at in absurd (omega arith)) in
      let (linked, nodes) =
        add_vnodes-IsLinked left (i + 1) id h' (λ a b l m. apart a b (omega arith) (omega arith))
          (add_vnode-IsLinked h hash id v m fresh)
          (ap (λ n. flag (Dict.lookup id n)) (add_vnode-nodes h hash id) ∙ m)
          (λ pos e. elim (add_vnode-lookup h hash id pos e) [
            | inl old ↦ let (j, lt, at) = own pos old in (j, omega arith, at)
            | inr at ↦ (i, omega arith, at)
          ]) in
      (linked, nodes ∙ add_vnode-nodes h hash id)

  pub add_node-new :
      (h : HashRing) (id : String)
      → NoSelfCollision h.vnodes id
      → IsLinked h
      → is_member h id ≡ false
      → let added =
          add_vnodes sum32 vnode_name h.vnodes 0 id
            (record h { nodes = Dict.insert id true h.nodes }) in
        IsLinked added × (added.nodes ≡ Dict.insert id true h.nodes)
  unfolding is_member
  add_node-new h id apart v absent =
      add_vnodes-IsLinked h.vnodes 0 id (record h { nodes = Dict.insert id true h.nodes })
        (λ i j l m. apart i j (omega arith) (omega arith))
        (record {
          linked = v.linked;
          owned = λ pos j e.
              ground (arith, v.owned pos j e, eq_iff id j, Dict.lookup-insert id j true h.nodes);
          once = v.once;
        })
        (ground (arith, eq_iff id id, Dict.lookup-insert id id true h.nodes))
        (λ pos e. absurd (ground (arith, v.owned pos id e)))

  pub sorted-IsLinked : (h : HashRing) → IsLinked h → IsLinked (record h { ring = sort h.ring })
  unfolding is_member
  sorted-IsLinked h v = record {
    linked = λ pos. has-sort pos h.ring ∙ v.linked pos;
    owned = v.owned;
    once = sort-IsOnce h.ring v.once;
  }

  pub add_node-IsLinked :
      (h : HashRing) (id : String)
      → NoSelfCollision h.vnodes id
      → IsLinked h
      → IsLinked (add_node sum32 vnode_name h id)
  unfolding add_node
  add_node-IsLinked h id apart v = elim (Bool-cases (is_member h id)) [
    | inl there ↦ rw there v
    | inr absent ↦ rw absent (sorted-IsLinked _ (add_node-new h id apart v absent).0)
  ]

  pub add_vnodes-nodes :
      (left i : ℕ) (id : String) (h : HashRing)
      → (add_vnodes sum32 vnode_name left i id h).nodes ≡ h.nodes
  unfolding add_vnodes
  add_vnodes-nodes zero i id h = refl
  add_vnodes-nodes (suc left) i id h =
      add_vnodes-nodes left (i + 1) id (add_vnode h (sum32 (vnode_name id i)) id)
      ∙ add_vnode-nodes h (sum32 (vnode_name id i)) id

  pub add_node-is_member :
      (h : HashRing) (id j : String)
      → is_member (add_node sum32 vnode_name h id) j ≡ (id == j || is_member h j)
  unfolding add_node is_member
  add_node-is_member h id j = ground (
    arith,
    eq_iff id j,
    Dict.lookup-insert id j true h.nodes,
    add_vnodes-nodes h.vnodes 0 id (record h { nodes = Dict.insert id true h.nodes }),
  )
