-- ===== src/Hnsw/Runs.antt =====
-- Insertions and drains of internal/index/hnsw/hnsw.go in any order, the drains of several goroutines
-- included.
use mathlib.Core.List.{Perm, append-nil, append_assoc}
use magnitude.Common.{
  ℕ, ◌≡◌, ◌⊎◌, refl, sym, ap, subst, ◌∙◌, true, false, ◌||◌, String, some, List, [], ◌∷◌, ◌++◌,
  nat_keyed,
}
use magnitude.Common.Result.{ok}
use magnitude.Hnsw.{
  ◌>>=◌, Distances, Candidate, Heap, IsHeap, PendingInsert, HnswIndex, empty_index, new_hnsw_index,
}
use magnitude.Hnsw.Walk.Ends.{IsOrder}
use magnitude.Hnsw.Vectors.{vector_of}
use magnitude.Hnsw.Puts.{IsWellFormed}
use magnitude.Hnsw.Drains.{System, Call, call, run}
use magnitude.Hnsw.Drains.Orders.{
  accepted_by, accepted, is_late, overtakes, joined, IsArranged, eq-IsArranged, IsArranged-trans,
}
use magnitude.Hnsw.Drains.Moves.{
  Moves, call-Moves, Holds, started, started-Holds, first_of, everything, new_hnsw_index-empty,
}

module _ {F : Type 0} (ds : Distances F) (less : IsOrder ds.less)
    (nearest furthest : Heap (Candidate F)) (is_near : IsHeap nearest) (is_far : IsHeap furthest)
    (dim : ℕ) where
  run-step :
      (s next : System F) (c : Call F) (cs : List (Call F))
      → call ds nearest furthest s c ≡ some next
      → run ds nearest furthest s (c ∷ cs) ≡ run ds nearest furthest next cs
  unfolding run
  run-step s next c cs at = rw (run, at, ◌>>=◌) refl

  pub run_from :
      (cs : List (Call F)) (order : List (PendingInsert F)) (s : System F)
      → Holds dim order s
      → (next : System F) × (order' : List (PendingInsert F)) × (run ds nearest furthest s cs
          ≡ some next)
        × Holds dim order' next
        × IsArranged (overtakes cs) (everything order' next) (everything order s ++ accepted dim cs)
  unfolding Moves overtakes accepted
  run_from [] order s k = (
    s,
    order,
    unfold run in refl,
    k,
    eq-IsArranged false (everything order s) (everything order s ++ [])
        (sym (append-nil (everything order s))),
  )
  run_from (c ∷ cs) order s k =
      let (mid, order', at, k', arranged) =
        call-Moves ds less nearest furthest is_near is_far dim order s c k in
      let (next, order'', at', k'', arranged') = run_from cs order' mid k' in
      (
        next,
        order'',
        run-step s mid c cs at ∙ at',
        k'',
        subst (IsArranged (is_late c || overtakes cs) (everything order'' next))
            (append_assoc (everything order s) (accepted_by dim c) (accepted dim cs))
            (IsArranged-trans (is_late c) (overtakes cs) (everything order'' next)
              (everything order' mid) (everything order s ++ accepted_by dim c) (accepted dim cs)
              arranged arranged'),
      )

  -- After any insertions and any critical sections of drains, those of other drains in between, with any
  -- levels and trackers, a new index has returned from every call and is well formed. The graph holds by
  -- id the first vector of an order of insertions, which with those that drains hold and those that are
  -- pending are all the insertions of the right length, each once. They come in the order of the calls,
  -- unless some call applied a batch that was not the oldest of those held.
  pub run-contents :
      (m ef_construction ef_search : ℕ) (metric : String) (h : HnswIndex F) (cs : List (Call F))
      → new_hnsw_index dim m ef_construction ef_search metric ≡ ok h
      → (next : System F) × (order : List (PendingInsert F)) × (run ds nearest furthest
            (started h)
            cs
          ≡ some next)
        × IsWellFormed next.index
        × ((at : ℕ) → vector_of next.index at ≡ first_of order at)
        × Perm (order ++ (joined next.held ++ next.index.dirty)) (accepted dim cs)
        × ((overtakes cs ≡ true)
            ⊎ (order ++ (joined next.held ++ next.index.dirty) ≡ accepted dim cs))
  run-contents m ef_construction ef_search metric h cs made =
      let fresh = new_hnsw_index-empty dim m ef_construction ef_search metric h made in
      let blank = empty_index {F = F} dim m ef_construction ef_search metric in
      let (next, order, at, k, arranged) =
        run_from cs [] (started blank) (started-Holds dim m ef_construction ef_search metric) in
      (
        next,
        order,
        ap (λ start. run ds nearest furthest (started start) cs) (sym fresh) ∙ at,
        k.well,
        k.graph,
        arranged.0,
        arranged.1,
      )
