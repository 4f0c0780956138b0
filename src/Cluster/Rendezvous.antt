-- ===== src/Cluster/Rendezvous.antt =====
-- internal/cluster/rendezvous.go: the pool of nodes and the owner of a key by the highest weight.
-- `weight` stands for the first eight bytes of SHA-256 of a node and a key. `sort.Strings` is
-- insertion sort by the order of texts.
pub mod Owner
pub mod Pool
use Prim.Native.String.{compare}
use Prim.Native.Nat.{Ordering}
use magnitude.Common.{
  ℕ, Bool, true, false, ◌||◌, String, List, [], ◌∷◌, ◌++◌, ltb, ◌==◌, string_keyed, if◌then◌else◌,
}
use magnitude.Common.Keys.{has, erase}

pub record RendezvousRouter : Type 0 where
  pub nodes : List String

abbrev pub text_leb : String → String → Bool
text_leb s t = elim (compare s t) [ Ordering.gt ↦ false | _ ↦ true ]

unfoldable pub insert_sorted : String → List String → List String
insert_sorted s [] = s ∷ []
insert_sorted s (t ∷ ts) = if text_leb s t then s ∷ t ∷ ts else t ∷ insert_sorted s ts

unfoldable pub sort_strings : List String → List String
unfolding insert_sorted
sort_strings [] = []
sort_strings (s ∷ ss) = insert_sorted s (sort_strings ss)

unfoldable pub new_router : List String → RendezvousRouter
new_router nodes = record { nodes = sort_strings nodes }

unfoldable pub add_node : RendezvousRouter → String → RendezvousRouter
add_node r node_id =
    if has node_id r.nodes then r else record r { nodes = sort_strings (r.nodes ++ node_id ∷ []) }

-- The first occurrence leaves the pool.
unfoldable pub remove_node : RendezvousRouter → String → RendezvousRouter
remove_node r node_id = record r { nodes = erase node_id r.nodes }

module _ (weight : String → String → ℕ) where
  -- One round of the loop of `Route`, on `maxHash` and `winner`.
  unfoldable pub contest : String → ℕ × String → String → ℕ × String
  contest key (max_hash, winner) node =
      if ltb max_hash (weight node key) || winner == ""
      then (weight node key, node)
      else (max_hash, winner)

  unfoldable pub contests : String → ℕ × String → List String → ℕ × String
  unfolding contest
  contests key best [] = best
  contests key best (node ∷ rest) = contests key (contest key best node) rest

  unfoldable pub route : RendezvousRouter → String → String
  unfolding contests
  route r key = elim r.nodes [ [] ↦ "" | node ∷ rest ↦ (contests key (0, "") (node ∷ rest)).1 ]
