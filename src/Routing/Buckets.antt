-- ===== src/Routing/Buckets.antt =====
-- The buckets split a batch by owner.
use magnitude.Common.{
  ℕ, ◌+◌, ◌≡◌, ◌≢◌, sym, ap, ◌∙◌, true, false, String, List, [], ◌∷◌, ◌++◌, length, ◌==◌,
  string_keyed, nat_keyed, if◌then◌else◌, arith, Bool-cases, inl, inr,
}
use mathlib.Core.List.{append_assoc, append-nil}
use text.Mathlib.TextEquality.{eq_iff}
use magnitude.Common.Dict
use magnitude.Common.Dict.{Dict}
use magnitude.Cluster.Ring.{is_member, get_node}
use magnitude.Cluster.Ring.Owners.{IsLinked}
use magnitude.Cluster.Ring.Routing.{get_node-is_member}
use magnitude.Routing.{Router, bucket_of, get_node_for_vector, bucket_from, bucket_vectors}

inserted :
    (owner target : String) (b : List ℕ) (m : Dict String (List ℕ))
    → (owner == target) ≡ true
    → bucket_of (Dict.lookup target (Dict.insert owner b m)) ≡ b
inserted owner target b m mine = ground (arith, Dict.lookup-insert owner target b m)

untouched :
    (owner target : String) (b : List ℕ) (m : Dict String (List ℕ))
    → (owner == target) ≡ false
    → bucket_of (Dict.lookup target (Dict.insert owner b m)) ≡ bucket_of (Dict.lookup target m)
untouched owner target b m other = ground (arith, Dict.lookup-insert owner target b m)

module _ (sum32 : String → ℕ) (vector_key : String → ℕ → String) (r : Router)
    (collection_id : String) where
  -- The indices of a batch, from `i` on, whose vectors belong to a node.
  unfoldable pub owned_from : String → ℕ → List ℕ → List ℕ
  owned_from target i [] = []
  owned_from target i (vid ∷ vids) =
      let others = owned_from target (i + 1) vids in
      if get_node_for_vector sum32 vector_key r collection_id vid == target
      then i ∷ others
      else others

  bucket_from-lookup :
      (target : String) (i : ℕ) (vids : List ℕ) (m : Dict String (List ℕ))
      → bucket_of (Dict.lookup target (bucket_from sum32 vector_key r collection_id i vids m))
        ≡ bucket_of (Dict.lookup target m) ++ owned_from target i vids
  unfolding bucket_from owned_from
  bucket_from-lookup target i [] m = sym (append-nil (bucket_of (Dict.lookup target m)))
  bucket_from-lookup target i (vid ∷ vids) m =
      let owner = get_node_for_vector sum32 vector_key r collection_id vid in
      let old = bucket_of (Dict.lookup owner m) in
      bucket_from-lookup target (i + 1) vids (Dict.insert owner (old ++ i ∷ []) m)
      ∙ (elim (Bool-cases (owner == target)) [
        | inl mine ↦
            let same : owner ≡ target = ground (arith, eq_iff owner target) in
            let shifted : (old ++ i ∷ []) ++ owned_from target (i + 1) vids
                ≡ old ++ i ∷ owned_from target (i + 1) vids =
              append_assoc old (i ∷ []) (owned_from target (i + 1) vids) in
            ap (λ b. b ++ owned_from target (i + 1) vids)
              (inserted owner target (old ++ i ∷ []) m mine)
            ∙ shifted
            ∙ ap (λ b. b ++ i ∷ owned_from target (i + 1) vids)
                (ap (λ t. bucket_of (Dict.lookup t m)) same)
            ∙ ap
                (λ b.
                  bucket_of (Dict.lookup target m)
                  ++ (if b
                      then i ∷ owned_from target (i + 1) vids
                      else owned_from target (i + 1) vids))
                (sym mine)
        | inr other ↦
            ap (λ b. b ++ owned_from target (i + 1) vids)
              (untouched owner target (old ++ i ∷ []) m other)
            ∙ ap
                (λ b.
                  bucket_of (Dict.lookup target m)
                  ++ (if b
                      then i ∷ owned_from target (i + 1) vids
                      else owned_from target (i + 1) vids))
                (sym other)
      ])

  -- The bucket of a node in the result of BucketVectors lists, in order, the indices of exactly the
  -- vectors that GetNodeForVector sends to it, and nodes without such vectors have no indices.
  pub bucket_vectors-owned :
      (vector_ids : List ℕ) (target : String)
      → bucket_of (Dict.lookup target (bucket_vectors sum32 vector_key r collection_id vector_ids))
        ≡ owned_from target 0 vector_ids
  unfolding bucket_vectors Dict.lookup
  bucket_vectors-owned vector_ids target = bucket_from-lookup target 0 vector_ids []

  -- On a linked ring that is not empty and has no member with the empty name, every vector is sent
  -- to a member of the ring.
  pub vector_to_member :
      (vector_id : ℕ)
      → IsLinked r.ring
      → length r.ring.ring ≢ 0
      → is_member r.ring "" ≡ false
      → is_member r.ring (get_node_for_vector sum32 vector_key r collection_id vector_id) ≡ true
  unfolding get_node_for_vector
  vector_to_member vector_id v nonempty named =
      let key = vector_key collection_id vector_id in
      ground (
        arith,
        get_node-is_member sum32 r.ring key v nonempty,
        eq_iff (get_node sum32 r.ring key) "",
      )
