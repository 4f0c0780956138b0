-- ===== src/Cluster/Rendezvous/Pool.antt =====
-- The pool of nodes after joins and departures.
use magnitude.Common.{
  ◌≡◌, refl, ◌∙◌, false, ◌||◌, ◌&&◌, not, String, List, [], ◌∷◌, ◌++◌, ◌==◌, string_keyed, arith,
  Bool-cases, inl, inr,
}
use text.Mathlib.TextEquality.{eq_iff}
use magnitude.Common.Keys.{has, IsOnce, has-erase, erase-IsOnce, has-append, append-IsOnce}
use magnitude.Cluster.Rendezvous.{
  RendezvousRouter, text_leb, insert_sorted, sort_strings, add_node, remove_node,
}

has-insert_sorted :
    (j s : String) (ts : List String) → has j (insert_sorted s ts) ≡ (s == j || has j ts)
unfolding has insert_sorted
has-insert_sorted j s [] = refl
has-insert_sorted j s (t ∷ ts) = elim (Bool-cases (text_leb s t)) [
  | inl before ↦ rw before refl
  | inr after ↦ rw after (ground (arith, has-insert_sorted j s ts))
]

has-sort_strings : (j : String) (ss : List String) → has j (sort_strings ss) ≡ has j ss
unfolding has sort_strings
has-sort_strings j [] = refl
has-sort_strings j (s ∷ ss) =
    ground (arith, has-insert_sorted j s (sort_strings ss), has-sort_strings j ss)

insert_sorted-IsOnce :
    (s : String) (ts : List String) → has s ts ≡ false → IsOnce ts → IsOnce (insert_sorted s ts)
unfolding has insert_sorted
insert_sorted-IsOnce s [] absent once = (refl, tt)
insert_sorted-IsOnce s (t ∷ ts) absent once = elim (Bool-cases (text_leb s t)) [
  | inl before ↦ rw before (absent, once)
  | inr after ↦ rw after (
    ground (arith, has-insert_sorted t s ts, once.0, absent, eq_iff s t, eq_iff t s),
    insert_sorted-IsOnce s ts (ground (arith, absent)) once.1,
  )
]

sort_strings-IsOnce : (ss : List String) → IsOnce ss → IsOnce (sort_strings ss)
unfolding sort_strings
sort_strings-IsOnce [] once = tt
sort_strings-IsOnce (s ∷ ss) once =
    insert_sorted-IsOnce s (sort_strings ss) (has-sort_strings s ss ∙ once.0)
      (sort_strings-IsOnce ss once.1)

add_node-has :
    (r : RendezvousRouter) (id j : String)
    → has j (add_node r id).nodes ≡ (id == j || has j r.nodes)
unfolding add_node has
add_node-has r id j =
    ground
      (arith, eq_iff id j, has-sort_strings j (r.nodes ++ id ∷ []), has-append j r.nodes (id ∷ []))

add_node-IsOnce :
    (r : RendezvousRouter) (id : String) → IsOnce r.nodes → IsOnce (add_node r id).nodes
unfolding add_node
add_node-IsOnce r id once = elim (Bool-cases (has id r.nodes)) [
  | inl there ↦ rw there once
  | inr absent ↦
      rw absent (sort_strings-IsOnce (r.nodes ++ id ∷ []) (append-IsOnce id r.nodes absent once))
]

-- On a pool without duplicates: AddNode adds exactly the node, RemoveNode removes exactly the node,
-- and neither leaves a duplicate.
pub pool_changes :
    (r : RendezvousRouter) (id j : String)
    → IsOnce r.nodes
    → (has j (add_node r id).nodes ≡ (id == j || has j r.nodes))
      × IsOnce (add_node r id).nodes
      × (has j (remove_node r id).nodes ≡ (not (id == j) && has j r.nodes))
      × IsOnce (remove_node r id).nodes
unfolding add_node remove_node
pool_changes r id j once = (
  add_node-has r id j,
  add_node-IsOnce r id once,
  ground (arith, has-erase id j r.nodes once),
  erase-IsOnce id r.nodes once,
)
