-- ===== src/Hnsw/Link/Rebuilds.antt =====
-- `Rebuild` of internal/index/hnsw/hnsw.go, which keeps the slab and the offsets of the old nodes.
use magnitude.Common.{
  ℕ, zero, suc, ◌+◌, ◌≤◌, ◌<◌, ◌≡◌, refl, sym, ap, subst, ◌∙◌, true, false, some, List, [], ◌∷◌,
  length, get_elem?, get_elem?-lt, ◌⊎◌, ◌==◌, nat_keyed, arith, Bool-cases, inl, inr,
}
use magnitude.Common.Result.{ok, err}
use magnitude.Hnsw.{
  ◌>>=◌, All, duplicate_id, Distances, Candidate, Heap, IsHeap, PendingInsert, HnswIndex,
  friends_at, node_vector, is_deleted, Node,
}
use magnitude.Hnsw.Tracker.{Tracker}
use magnitude.Hnsw.Link.{
  insert_locked, take_batch, drain_dirty_buffer, drain_batch, live_nodes, reset_graph, reinsert,
  rebuild,
}
use magnitude.Hnsw.Valid.{IsValid, node_vector_total}
use magnitude.Hnsw.Walk.Ends.{IsOrder}
use magnitude.Hnsw.Link.Friends.{id_at, some_inj}
use magnitude.Hnsw.Link.Stored.{insert_locked_outcome}
use magnitude.Hnsw.Puts.{IsWellFormed}
use magnitude.Hnsw.Link.Growth.{
  Extends, Extends-refl, Extends-trans, stored-Extends, stored_id, stored_count,
}

reset_graph-IsValid : {F : Type 0} (h : HnswIndex F) → IsValid h → IsValid (reset_graph h)
unfolding reset_graph friends_at
reset_graph-IsValid h v = record {
  room = v.room;
  offsets = omega arith;
  vectors = v.vectors;
  links = λ i layer fs at. absurd (ground (arith, at));
  entry = λ top at. absurd (ground arith);
}

module _ {F : Type 0} (ds : Distances F) (order : IsOrder ds.less)
    (nearest furthest : Heap (Candidate F)) (is_near : IsHeap nearest) (is_far : IsHeap furthest)
    (levels : ℕ → ℕ) where
  -- The nodes of the new graph have the ids of the list, in its order.
  record Reinserted (h : HnswIndex F) (ps : List (PendingInsert F)) (next : HnswIndex F)
      : Type 0 where
    extends : Extends h next
    ids :
        (j : ℕ) (p : PendingInsert F)
        → get_elem? ps j ≡ some p
        → id_at next.nodes (length h.nodes + j) ≡ some p.id

  -- How the loop over the live nodes ends.
  Reinsertion : HnswIndex F → List (PendingInsert F) → Tracker → Type 0
  Reinsertion h ps vt =
      (reinsert ds nearest furthest levels h ps vt ≡ some (err duplicate_id))
      ⊎ ((next : HnswIndex F) × (used : Tracker) × (reinsert ds nearest furthest levels h ps vt
            ≡ some (ok (next, used)))
          × Reinserted h ps next)

  module _ (h : HnswIndex F) (p : PendingInsert F) (ps : List (PendingInsert F))
      (vt : Tracker) where
    reinsert-refused :
        insert_locked ds nearest furthest h p.id p.vector (levels (length h.nodes)) vt
          ≡ some (err duplicate_id)
        → reinsert ds nearest furthest levels h (p ∷ ps) vt ≡ some (err duplicate_id)
    unfolding reinsert
    reinsert-refused at = rw (reinsert, at, ◌>>=◌) refl

    reinsert-next :
        (stored : HnswIndex F) (used : Tracker)
        → insert_locked ds nearest furthest h p.id p.vector (levels (length h.nodes)) vt
          ≡ some (ok (stored, used))
        → reinsert ds nearest furthest levels h (p ∷ ps) vt
          ≡ reinsert ds nearest furthest levels stored ps used
    unfolding reinsert
    reinsert-next stored used at = rw (reinsert, at, ◌>>=◌) refl

  Reinserted-ids :
      (h stored next : HnswIndex F) (p : PendingInsert F) (ps : List (PendingInsert F))
      → (id_at stored.nodes (length h.nodes) ≡ some p.id)
      → length stored.nodes ≡ length h.nodes + 1
      → Reinserted stored ps next
      → (j : ℕ) (q : PendingInsert F) → get_elem? (p ∷ ps) j ≡ some q
      → id_at next.nodes (length h.nodes + j) ≡ some q.id
  Reinserted-ids h stored next p ps named one r zero q at =
      subst (λ i. id_at next.nodes i ≡ some q.id) (omega arith)
        (r.extends.ids (length h.nodes) (omega (arith, one))
          ∙ named
          ∙ ap (λ x. some x.id) (some_inj at))
  Reinserted-ids h stored next p ps named one r (suc j) q at =
      subst (λ i. id_at next.nodes i ≡ some q.id) (omega (arith, one)) (r.ids j q at)

  reinsert_total :
      (ps : List (PendingInsert F)) (h : HnswIndex F) (vt : Tracker)
      → IsValid h
      → All (λ p. length p.vector ≡ h.dim) ps
      → Reinsertion h ps vt
  unfolding Reinsertion
  reinsert_total [] h vt v fits = inr (
    h,
    vt,
    unfold reinsert in refl,
    record { extends = Extends-refl h; ids = λ j p at. absurd (ground (arith, at)) },
  )
  reinsert_total (p ∷ ps) h vt v fits =
      elim (insert_locked_outcome ds order nearest furthest is_near is_far h p.id p.vector
        (levels (length h.nodes)) vt v fits.0) [
          | inl (i, live, refused) ↦ inl (reinsert-refused h p ps vt refused)
          | inr (fresh, stored, used, accepted, v', s) ↦
              elim (reinsert_total ps stored used v' (rw s.dim fits.1)) [
                | inl fails ↦ inl (reinsert-next h p ps vt stored used accepted ∙ fails)
                | inr (next, used', at, r) ↦ inr (
                  next,
                  used',
                  reinsert-next h p ps vt stored used accepted ∙ at,
                  record {
                    extends =
                        Extends-trans h stored next (stored-Extends h v p.id p.vector stored s)
                          r.extends;
                    ids =
                        Reinserted-ids h stored next p ps (stored_id h v p.id p.vector stored s)
                          (stored_count h v p.id p.vector stored s) r;
                  },
                )
              ]
        ]

  live_nodes-step :
      (h : HnswIndex F) (i : ℕ) (n : Node) (ns : List Node) (vec : List F)
      (others : List (PendingInsert F))
      → is_deleted h i ≡ false
      → node_vector h i ≡ some vec
      → live_nodes ds nearest furthest levels h (suc i) ns ≡ some others
      → live_nodes ds nearest furthest levels h i (n ∷ ns)
        ≡ some ((record { id = n.id; vector = vec }) ∷ others)
  unfolding live_nodes
  live_nodes-step h i n ns vec others stays found rest =
      rw (live_nodes, stays, found, ◌>>=◌, rest) refl

  live_nodes-skip :
      (h : HnswIndex F) (i : ℕ) (n : Node) (ns : List Node)
      → is_deleted h i ≡ true
      → live_nodes ds nearest furthest levels h i (n ∷ ns)
        ≡ live_nodes ds nearest furthest levels h (suc i) ns
  unfolding live_nodes
  live_nodes-skip h i n ns gone = rw (live_nodes, gone) refl

  live_nodes_total :
      (h : HnswIndex F) (v : IsValid h) (ns : List Node) (i : ℕ)
      → i + length ns ≡ length h.nodes
      → (live : List (PendingInsert F)) × (live_nodes ds nearest furthest levels h i ns ≡ some live)
        × All (λ p. length p.vector ≡ h.dim) live
        × (length live ≤ length ns)
  live_nodes_total h v [] i reach = ([], unfold live_nodes in refl, tt, omega arith)
  live_nodes_total h v (n ∷ ns) i reach =
      let (live, at, fits, few) = live_nodes_total h v ns (suc i) (omega arith) in
      let (vec, found, long) = node_vector_total h v i (omega arith) in
      elim (Bool-cases (is_deleted h i)) [
        | inl gone ↦ (live, live_nodes-skip h i n ns gone ∙ at, fits, omega arith)
        | inr stays ↦ (
          (record { id = n.id; vector = vec }) ∷ live,
          live_nodes-step h i n ns vec live stays found at,
          (long, fits),
          omega arith,
        )
      ]

  nothing_to_drain :
      (h : HnswIndex F) (vt : Tracker)
      → h.dirty ≡ []
      → drain_dirty_buffer ds nearest furthest levels h vt ≡ some (h, vt, [])
  unfolding drain_dirty_buffer take_batch drain_batch
  nothing_to_drain h vt drained =
      ap (λ d. drain_batch ds nearest furthest levels (record h { dirty = [] }) d vt []) drained
      ∙ ap (λ d. some (record h { dirty = d }, vt, [])) (sym drained)

  rebuild-reinserts :
      (h : HnswIndex F) (vt : Tracker) (live : List (PendingInsert F))
      → h.dirty ≡ []
      → (length h.deleted == 0) ≡ false
      → live_nodes ds nearest furthest levels h 0 h.nodes ≡ some live
      → rebuild ds nearest furthest levels h vt
        ≡ reinsert ds nearest furthest levels (reset_graph h) live vt
  unfolding rebuild
  rebuild-reinserts h vt live drained some_deleted at =
      rw (rebuild, nothing_to_drain h vt drained, ◌>>=◌, some_deleted, at) refl

  -- `Rebuild` of a well-formed index with some tombstone and nothing pending returns. It reports a
  -- duplicate, or numbers the live nodes anew, in their order, while the j-th of them has the vector that
  -- the old node j had, be that another node or one that was deleted.
  pub rebuild_reads_old_rows :
      (h : HnswIndex F) (vt : Tracker)
      → IsWellFormed h
      → h.dirty ≡ []
      → 0 < length h.deleted
      → (live : List (PendingInsert F)) × (live_nodes ds nearest furthest levels h 0 h.nodes
          ≡ some live)
        × ((rebuild ds nearest furthest levels h vt ≡ some (err duplicate_id))
            ⊎ ((next : HnswIndex F) × (used : Tracker) × (rebuild ds nearest furthest levels h vt
                  ≡ some (ok (next, used)))
                × ((j : ℕ) (p : PendingInsert F)
                    → get_elem? live j ≡ some p
                    → (id_at next.nodes j ≡ some p.id) × (node_vector next j ≡ node_vector h j))))
  unfolding Reinsertion reset_graph node_vector
  rebuild_reads_old_rows h vt w drained some_deleted =
      let (live, at, fits, few) = live_nodes_total h w.valid h.nodes 0 (omega arith) in
      let rebuilt = rebuild-reinserts h vt live drained (ground (arith, some_deleted)) at in
      (
        live,
        at,
        elim (reinsert_total live (reset_graph h) vt (reset_graph-IsValid h w.valid) fits) [
          | inl fails ↦ inl (rebuilt ∙ fails)
          | inr (next, used, done, r) ↦ inr (
            next,
            used,
            rebuilt ∙ done,
            λ j p found. (
              subst (λ i. id_at next.nodes i ≡ some p.id) (omega arith) (r.ids j p found),
              r.extends.rows j (omega (arith, few, get_elem?-lt live j p found, w.indexed.counts)),
            ),
          )
        ],
      )
