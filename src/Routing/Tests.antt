-- ===== src/Routing/Tests.antt =====
-- A batch on a ring of two nodes.
use magnitude.Common.{
  ℕ, ◌≡◌, String, none, List, [], ◌∷◌, ◌==◌, nat_keyed, string_keyed, if◌then◌else◌, arith,
}
use magnitude.Common.Dict
use magnitude.Cluster.Ring.{
  new_ring, is_member, insert_sorted, sort, taken_by_other, add_vnode, add_vnodes, add_node,
}
use magnitude.Cluster.Ring.Routing.{Change, join, run, Apart}
use magnitude.Routing.{Router, bucket_of, bucket_vectors}
use magnitude.Routing.Buckets.{owned_from, bucket_vectors-owned}

abbrev vnode_name : String → ℕ → String
vnode_name id i = id

abbrev vector_key : String → ℕ → String
vector_key collection_id vector_id = if vector_id == 7 then "odd" else "even"

abbrev sum32 : String → ℕ
sum32 s = if s == "a" then 10 else if s == "b" then 20 else if s == "odd" then 15 else 5

abbrev changes : List Change
changes = join "a" ∷ join "b" ∷ []

changes-Apart : Apart sum32 vnode_name (new_ring 1) changes
unfolding Apart new_ring add_node add_vnodes add_vnode taken_by_other sort insert_sorted is_member
    Dict.lookup Dict.insert
changes-Apart = ((λ i j l m e. omega arith), ((λ i j l m e. omega arith), tt))

abbrev router : Router
router = record {
  ring = run sum32 vnode_name (new_ring 1) changes;
  local_node_id = "a";
  local_addr = "10.0.0.1";
  resolver = none;
}

bucket_vectors-owned_example :
    bucket_of (Dict.lookup "b" (bucket_vectors sum32 vector_key router "items" (4 ∷ 7 ∷ 9 ∷ [])))
    ≡ owned_from sum32 vector_key router "items" "b" 0 (4 ∷ 7 ∷ 9 ∷ [])
bucket_vectors-owned_example =
    bucket_vectors-owned sum32 vector_key router "items" (4 ∷ 7 ∷ 9 ∷ []) "b"
