-- ===== src/Cluster/Ring/Routing.antt =====
-- Where the hash ring sends a key.
use magnitude.Common.{
  ℕ, ◌<◌, ◌≤◌, ◌≡◌, ◌≢◌, refl, true, false, String, List, [], ◌∷◌, length, nat_keyed, string_keyed,
  arith, Option-cases, inl, inr, get_elem?_total,
}
use magnitude.Common.Dict
use magnitude.Common.Dict.{Dict}
use magnitude.Common.Keys.{has, has-get_elem?}
use magnitude.Cluster.Ring.{
  HashRing, new_ring, is_member, owner_at, add_node, removal_panics, remove_node, search,
  start_index, get_node,
}
use magnitude.Cluster.Ring.Owners.{IsLinked, NoSelfCollision, add_node-IsLinked}
use magnitude.Cluster.Ring.Removal.{remove_node-IsLinked}

-- The index of the search is the first whose position is not below the hash.
pub search-le : (hash : ℕ) (ring : List ℕ) → search hash ring ≤ length ring
unfolding search
search-le hash [] = omega arith
search-le hash (x ∷ xs) = ground (arith, search-le hash xs)

pub start_index-lt :
    (hash : ℕ) (ring : List ℕ) → length ring ≢ 0 → start_index hash ring < length ring
unfolding start_index
start_index-lt hash ring h = ground (arith, search-le hash ring)

pub owner-is_member :
    (h : HashRing) (pos : ℕ)
    → IsLinked h
    → has pos h.ring ≡ true
    → is_member h (owner_at h pos) ≡ true
unfolding owner_at
owner-is_member h pos v on_ring = elim (Option-cases (Dict.lookup pos h.node_map)) [
  | inl free ↦ absurd (ground (arith, v.linked pos))
  | inr (id, owned) ↦ rw owned (v.owned pos id owned)
]

module _ (sum32 : String → ℕ) where
  pub get_node-is_member :
      (h : HashRing) (key : String)
      → IsLinked h
      → length h.ring ≢ 0
      → is_member h (get_node sum32 h key) ≡ true
  unfolding get_node
  get_node-is_member h key v nonempty =
      let (pos, at) =
        get_elem?_total h.ring (start_index (sum32 key) h.ring)
          (start_index-lt (sum32 key) h.ring nonempty) in
      ground
        (arith, owner-is_member h pos v (has-get_elem? h.ring (start_index (sum32 key) h.ring) at))

-- A join or a departure.
pub data Change : Type 0 where
  join depart : String → Change

module _ (sum32 : String → ℕ) (vnode_name : String → ℕ → String) where
  unfoldable pub change : HashRing → Change → HashRing
  change h (join id) = add_node sum32 vnode_name h id
  change h (depart id) = remove_node h id

  unfoldable pub run : HashRing → List Change → HashRing
  run h [] = h
  run h (c ∷ cs) = run (change h c) cs

  -- Every node that joins has virtual nodes whose positions differ, and no departure panics.
  unfoldable pub Apart : HashRing → List Change → Type 0
  Apart h [] = Unit
  Apart h (join id ∷ cs) =
      NoSelfCollision sum32 vnode_name h.vnodes id × Apart (add_node sum32 vnode_name h id) cs
  Apart h (depart id ∷ cs) = (removal_panics h id ≡ false) × Apart (remove_node h id) cs

  pub run-IsLinked :
      (h : HashRing) (cs : List Change) → Apart h cs → IsLinked h → IsLinked (run h cs)
  unfolding run change Apart
  run-IsLinked h [] apart v = v
  run-IsLinked h (join id ∷ cs) (fresh, apart) v =
      run-IsLinked (add_node sum32 vnode_name h id) cs apart
        (add_node-IsLinked sum32 vnode_name h id fresh v)
  run-IsLinked h (depart id ∷ cs) (returns, apart) v =
      run-IsLinked (remove_node h id) cs apart (remove_node-IsLinked h id v)

  pub new_ring-IsLinked : (vnodes : ℕ) → IsLinked (new_ring vnodes)
  unfolding new_ring has Dict.lookup
  new_ring-IsLinked vnodes = record { linked = λ pos. refl; owned = λ pos id e. cc; once = tt }

  -- If no joining node's virtual nodes collide among themselves and no departure panics, then after
  -- any joins and departures every
  -- key goes to a node that has joined and not departed since, unless the ring is empty.
  pub routed_to_member :
      (vnodes : ℕ) (cs : List Change) (key : String)
      → Apart (new_ring vnodes) cs
      → length (run (new_ring vnodes) cs).ring ≢ 0
      → is_member (run (new_ring vnodes) cs) (get_node sum32 (run (new_ring vnodes) cs) key) ≡ true
  routed_to_member vnodes cs key apart nonempty =
      get_node-is_member sum32 (run (new_ring vnodes) cs) key
        (run-IsLinked (new_ring vnodes) cs apart (new_ring-IsLinked vnodes)) nonempty
