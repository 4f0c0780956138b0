-- ===== src/Cluster/Ring/Removal.antt =====
-- What the removal of a node does to the owners of positions.
use magnitude.Common.{
  ℕ, ◌≡◌, refl, not, ◌&&◌, String, none, List, [], ◌∷◌, ◌==◌, nat_keyed, string_keyed,
  if◌then◌else◌, arith, Bool-cases, inl, inr, nat_beq_iff,
}
use text.Mathlib.TextEquality.{eq_iff}
use magnitude.Common.Dict
use magnitude.Common.Dict.{Dict}
use magnitude.Common.Keys.{has, IsOnce}
use magnitude.Cluster.Ring.{HashRing, is_member, text_or_empty, keep_others, remove_node}
use magnitude.Cluster.Ring.Owners.{IsLinked}

keep_others-has :
    (id : String) (hs : List ℕ) (m : Dict ℕ String) (pos : ℕ)
    → IsOnce hs
    → has pos (keep_others id hs m).0
      ≡ (has pos hs && not (text_or_empty (Dict.lookup pos m) == id))
unfolding keep_others has
keep_others-has id [] m pos once = refl
keep_others-has id (hash ∷ hs) m pos once = ground (
  arith,
  nat_beq_iff hash pos,
  once.0,
  Dict.lookup-delete hash pos m,
  keep_others-has id hs (Dict.delete hash m) pos once.1,
  keep_others-has id hs m pos once.1,
)

keep_others-lookup :
    (id : String) (hs : List ℕ) (m : Dict ℕ String) (pos : ℕ)
    → IsOnce hs
    → Dict.lookup pos (keep_others id hs m).1
      ≡ (if has pos hs && text_or_empty (Dict.lookup pos m) == id then none else Dict.lookup pos m)
unfolding keep_others has
keep_others-lookup id [] m pos once = refl
keep_others-lookup id (hash ∷ hs) m pos once = ground (
  arith,
  nat_beq_iff hash pos,
  once.0,
  Dict.lookup-delete hash pos m,
  keep_others-lookup id hs (Dict.delete hash m) pos once.1,
  keep_others-lookup id hs m pos once.1,
)

keep_others-IsOnce :
    (id : String) (hs : List ℕ) (m : Dict ℕ String) → IsOnce hs → IsOnce (keep_others id hs m).0
unfolding keep_others
keep_others-IsOnce id [] m once = tt
keep_others-IsOnce id (hash ∷ hs) m once =
    elim (Bool-cases (text_or_empty (Dict.lookup hash m) == id)) [
      | inl mine ↦ rw (mine, keep_others) (keep_others-IsOnce id hs (Dict.delete hash m) once.1)
      | inr other ↦
          rw (other, keep_others)
            (
              ground (arith, once.0, keep_others-has id hs m hash once.1),
              keep_others-IsOnce id hs m once.1,
            )
    ]

pub remove_node-IsLinked : (h : HashRing) (id : String) → IsLinked h → IsLinked (remove_node h id)
unfolding remove_node is_member
remove_node-IsLinked h id v = elim (Bool-cases (is_member h id)) [
  | inr absent ↦ rw absent v
  | inl there ↦ rw there (record {
    linked = λ pos. ground (
      arith,
      v.linked pos,
      keep_others-has id h.ring h.node_map pos v.once,
      keep_others-lookup id h.ring h.node_map pos v.once,
    );
    owned = λ pos j e. ground (
      arith,
      eq_iff id j,
      v.linked pos,
      v.owned pos j,
      Dict.lookup-delete id j h.nodes,
      keep_others-lookup id h.ring h.node_map pos v.once,
    );
    once = keep_others-IsOnce id h.ring h.node_map v.once;
  })
]

pub remove_node-is_member :
    (h : HashRing) (id j : String)
    → is_member (remove_node h id) j ≡ (not (id == j) && is_member h j)
unfolding remove_node is_member
remove_node-is_member h id j = ground (arith, eq_iff id j, Dict.lookup-delete id j h.nodes)
