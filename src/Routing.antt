-- ===== src/Routing.antt =====
-- internal/routing/router.go: which node a vector belongs to. `sum32` is the hash of the ring and
-- `vector_key` stands for `fmt.Sprintf("%s#%d", ...)`.
pub mod Buckets
mod Tests
use magnitude.Common.{
  ℕ, zero, suc, ◌+◌, Bool, true, false, String, Option, none, some, List, [], ◌∷◌, ◌++◌, map,
  length, ◌==◌, string_keyed, nat_keyed, if◌then◌else◌,
}
use magnitude.Common.Dict
use magnitude.Common.Dict.{Dict}
use magnitude.Cluster.Ring.{HashRing, get_node}
use magnitude.Cluster.Rendezvous.{sort_strings}

-- `resolver` is a function, or `none` for nil.
pub record Router : Type 0 where
  pub ring : HashRing
  pub local_node_id : String
  pub local_addr : String
  pub resolver : Option (String → String)

unfoldable pub is_local : Router → String → Bool
is_local r node_id = node_id == r.local_node_id

unfoldable pub get_address : Router → String → String
unfolding is_local
get_address r node_id =
    if is_local r node_id
    then r.local_addr
    else elim r.resolver [ none ↦ "" | some resolve ↦ resolve node_id ]

-- `Nodes` of the ring sorts the keys of its map of nodes.
unfoldable pub get_all_nodes : Router → List String
get_all_nodes r =
    let nodes = sort_strings (map (λ entry. entry.0) r.ring.nodes) in
    if length nodes == 0 then r.local_node_id ∷ [] else nodes

abbrev pub bucket_of : Option (List ℕ) → List ℕ
bucket_of none = []
bucket_of (some indices) = indices

module _ (sum32 : String → ℕ) (vector_key : String → ℕ → String) where
  unfoldable pub get_node_for_vector : Router → String → ℕ → String
  get_node_for_vector r collection_id vector_id =
      let node_id = get_node sum32 r.ring (vector_key collection_id vector_id) in
      if node_id == "" then r.local_node_id else node_id

  -- The loop of `BucketVectors` from index `i` on.
  unfoldable pub bucket_from :
      Router → String → ℕ → List ℕ → Dict String (List ℕ) → Dict String (List ℕ)
  bucket_from r collection_id i [] buckets = buckets
  bucket_from r collection_id i (vid ∷ vids) buckets =
      let target = get_node_for_vector r collection_id vid in
      bucket_from r collection_id (i + 1) vids
        (Dict.insert target (bucket_of (Dict.lookup target buckets) ++ i ∷ []) buckets)

  unfoldable pub bucket_vectors : Router → String → List ℕ → Dict String (List ℕ)
  unfolding bucket_from
  bucket_vectors r collection_id vector_ids = bucket_from r collection_id 0 vector_ids []
