-- ===== src/Hnsw/Tests.antt =====
-- Runs of the HNSW index on vectors of one natural number.
use mathlib.Core.List.{Perm}
use magnitude.Common.{
  ℕ, zero, suc, ◌+◌, ◌-◌, ◌≤◌, ◌≡◌, ◌⊎◌, refl, sym, ap, subst, Bool, true, false, Option, none,
  some, List, [], ◌∷◌, ◌++◌, length, get_elem?, ltb, ◌==◌, nat_keyed, if◌then◌else◌, arith,
}
use magnitude.Common.Keys.{has}
use magnitude.Common.Sort.{insert_by, length-insert_by}
use magnitude.Common.Dict
use magnitude.Common.Result.{ok, err}
use magnitude.Flat.{is_metric}
use magnitude.Hnsw.{
  duplicate_id, vector_not_found, cancelled, Distances, Candidate, Heap, IsHeap, All, Node,
  PendingInsert, HnswIndex, empty_index, new_hnsw_index, delete, node_index, node_vector,
}
use magnitude.Hnsw.Tracker.{Tracker, fresh_tracker, next_gen, is_visited}
use magnitude.Hnsw.Walk.{node_distance}
use magnitude.Hnsw.Beam.{search_layer}
use magnitude.Hnsw.Link.{live_nodes, rebuild}
use magnitude.Hnsw.Search.{SearchResult, scored, search, search_filtered}
use magnitude.Hnsw.Walk.Ends.{IsOrder}
use magnitude.Hnsw.Link.Neighbors.{insert_by-All}
use magnitude.Hnsw.Link.Friends.{id_at, some_inj}
use magnitude.Hnsw.Link.Stored.{Refused, Accepted, insert_locked_outcome}
use magnitude.Hnsw.Vectors.{vector_of}
use magnitude.Hnsw.Puts.{IsWellFormed}
use magnitude.Hnsw.Drains.{System, Call, insert_call, take_call, apply_call, run}
use magnitude.Hnsw.Drains.Orders.{accepted, overtakes, joined}
use magnitude.Hnsw.Drains.Moves.{started, first_of, started-Holds}
use magnitude.Hnsw.Runs.{run_from, run-contents}
use magnitude.Hnsw.Search.Finds.{IsFound, search_finds}
use magnitude.Hnsw.Search.Filtered.{IsSelected, search_filtered_selects}
use magnitude.Hnsw.Search.Faults.{NoMatch, fresh_tracker_blind, NoMatch-returns_entry}
use magnitude.Hnsw.Link.Rebuilds.{rebuild_reads_old_rows}
use magnitude.Hnsw.Deletes.{with_tombstone, with_tombstone-IsWellFormed, delete_outcome}
use magnitude.Hnsw.Tracker.Generations.{visit_step, next_gen_step, steps, next_gen_forgets}

abbrev first : List ℕ → ℕ
first [] = 0
first (x ∷ xs) = x

abbrev apart : List ℕ → List ℕ → ℕ
apart xs ys = (first xs - first ys) + (first ys - first xs)

abbrev line : Distances ℕ
line = record {
  less = ltb;
  largest = 1000000;
  distance_func = λ _. apart;
  batch_distance = λ _. apart;
  score_from = λ _ d. d;
}

line-IsOrder : IsOrder ltb
line-IsOrder = record {
  irreflexive = λ a. ground arith;
  transitive = λ a b c below above. ground arith;
}

-- A heap as a sorted list.
unfoldable sorted_heap : {A : Type 0} → (A → A → Bool) → Heap A
unfolding insert_by
sorted_heap before = record {
  push = insert_by before;
  pop = λ h. elim h [ [] ↦ none | x ∷ xs ↦ some (x, xs) ];
}

abbrev taken : {A : Type 0} → A → List A → Option (A × List A)
taken a xs = some (a, xs)

pair_inj : {A : Type 0} {a b : A} {xs ys : List A} → taken a xs ≡ taken b ys → (a ≡ b) × (xs ≡ ys)
pair_inj {A} {a} {b} {xs} {ys} e = (ap (λ p. p.0) (some_inj e), ap (λ p. p.1) (some_inj e))

module _ {A : Type 0} where
  abbrev sorted_pop : List A → Option (A × List A)
  sorted_pop h = elim h [ [] ↦ none | x ∷ xs ↦ some (x, xs) ]

  sorted_pop-length :
      (h rest : List A) (a : A) → sorted_pop h ≡ some (a, rest) → length h ≡ length rest + 1
  sorted_pop-length [] rest a e = absurd (ground (arith, e))
  sorted_pop-length (x ∷ xs) rest a e = omega (arith, ap length (pair_inj e).1)

  sorted_pop-All :
      (P : A → Type 0) (h rest : List A) (a : A)
      → sorted_pop h ≡ some (a, rest)
      → All P h
      → P a × All P rest
  sorted_pop-All P [] rest a e all = absurd (ground (arith, e))
  sorted_pop-All P (x ∷ xs) rest a e all =
      (subst P (pair_inj e).0 all.0, subst (All P) (pair_inj e).1 all.1)

sorted_heap-IsHeap : {A : Type 0} (before : A → A → Bool) → IsHeap (sorted_heap before)
unfolding sorted_heap
sorted_heap-IsHeap before = record {
  push-length = λ a h. omega (arith, length-insert_by before a h);
  push-All = λ P a h first rest. insert_by-All before P a h first rest;
  pop_some = λ a h. (a, h, refl);
  pop-length = λ h rest a e. sorted_pop-length h rest a e;
  pop-All = λ P h rest a e all. sorted_pop-All P h rest a e all;
}

abbrev near : Heap (Candidate ℕ)
near = sorted_heap (λ a b. ltb a.dist b.dist)

abbrev far : Heap (Candidate ℕ)
far = sorted_heap (λ a b. ltb b.dist a.dist)

near-IsHeap : IsHeap near
near-IsHeap = sorted_heap-IsHeap (λ a b. ltb a.dist b.dist)

far-IsHeap : IsHeap far
far-IsHeap = sorted_heap-IsHeap (λ a b. ltb b.dist a.dist)

-- Four vectors, inserted and drained, and a fifth that is pending.
abbrev calls : List (Call ℕ)
calls =
    insert_call 10 (5 ∷ [])
    ∷ insert_call 11 (9 ∷ [])
    ∷ insert_call 12 (1 ∷ [])
    ∷ insert_call 13 (7 ∷ [])
    ∷ take_call
    ∷ apply_call 0 (λ _. 0) fresh_tracker
    ∷ insert_call 14 (20 ∷ [])
    ∷ []

abbrev blank : HnswIndex ℕ
blank = empty_index 1 2 10 10 "l2"

abbrev index_of : Option (System ℕ) → HnswIndex ℕ
index_of none = blank
index_of (some s) = s.index

unfoldable after : List (Call ℕ) → HnswIndex ℕ
unfolding run
after cs = index_of (run line near far (started blank) cs)

after-IsWellFormed : (cs : List (Call ℕ)) → IsWellFormed (after cs)
unfolding after
after-IsWellFormed cs =
    let (next, order, at, k, _) =
      run_from line line-IsOrder near far near-IsHeap far-IsHeap 1 cs [] (started blank)
        (started-Holds 1 2 10 10 "l2") in
    subst IsWellFormed (sym (ap index_of at)) k.well

abbrev built : HnswIndex ℕ
built = after calls

insert_locked_outcome_example :
    Refused line line-IsOrder near far near-IsHeap far-IsHeap built 11 (4 ∷ []) 2 fresh_tracker
    ⊎ Accepted line line-IsOrder near far near-IsHeap far-IsHeap built 11 (4 ∷ []) 2 fresh_tracker
unfolding after Dict.lookup Dict.insert sorted_heap
insert_locked_outcome_example =
    insert_locked_outcome line line-IsOrder near far near-IsHeap far-IsHeap built 11 (4 ∷ []) 2
      fresh_tracker (after-IsWellFormed calls).valid refl

-- Two drains, of which the second applies its batch first.
abbrev crossing : List (Call ℕ)
crossing =
    insert_call 10 (5 ∷ [])
    ∷ take_call
    ∷ insert_call 10 (9 ∷ [])
    ∷ take_call
    ∷ apply_call 1 (λ _. 0) fresh_tracker
    ∷ apply_call 0 (λ _. 0) fresh_tracker
    ∷ []

-- The later vector of the id is in the graph.
crossing_keeps_later : (overtakes crossing ≡ true) × (vector_of (after crossing) 10 ≡ some (9 ∷ []))
unfolding after vector_of node_index node_vector overtakes Dict.lookup Dict.insert sorted_heap has
crossing_keeps_later = (refl, refl)

run-contents_example :
    (next : System ℕ) × (order : List (PendingInsert ℕ)) × (run line near far
        (started blank)
        crossing
      ≡ some next)
    × IsWellFormed next.index
    × ((at : ℕ) → vector_of next.index at ≡ first_of order at)
    × Perm (order ++ (joined next.held ++ next.index.dirty)) (accepted 1 crossing)
    × ((overtakes crossing ≡ true)
        ⊎ (order ++ (joined next.held ++ next.index.dirty) ≡ accepted 1 crossing))
unfolding new_hnsw_index is_metric
run-contents_example =
    run-contents line line-IsOrder near far near-IsHeap far-IsHeap 1 2 10 10 "l2" blank crossing
      refl

search_finds_example :
    (search line near far (λ _. false) built built.dirty (7 ∷ []) 2 0 fresh_tracker
      ≡ some (err cancelled))
    ⊎ ((results : List (SearchResult ℕ)) × (used : Tracker) × (search line near far
            (λ _. false)
            built
            built.dirty
            (7 ∷ [])
            2
            0
            fresh_tracker
          ≡ some (ok (results, used)))
        × All (IsFound line built built.dirty (7 ∷ [])) results
        × (length results ≤ 2))
unfolding after Dict.lookup Dict.insert sorted_heap
search_finds_example =
    search_finds line line-IsOrder near far near-IsHeap far-IsHeap (λ _. false) built
      (after-IsWellFormed calls) built.dirty (7 ∷ []) refl 2 0 (omega arith) fresh_tracker

search_filtered_selects_example :
    (search_filtered line near far
        (λ _. false)
        built
        built.dirty
        (7 ∷ [])
        2
        0
        (13 ∷ 14 ∷ [])
        fresh_tracker
      ≡ some (err cancelled))
    ⊎ ((results : List (SearchResult ℕ)) × (used : Tracker) × (search_filtered line near far
            (λ _. false)
            built
            built.dirty
            (7 ∷ [])
            2
            0
            (13 ∷ 14 ∷ [])
            fresh_tracker
          ≡ some (ok (results, used)))
        × All
            (IsSelected line line-IsOrder near far near-IsHeap far-IsHeap
              (λ _. false)
              built
              (after-IsWellFormed calls)
              (7 ∷ [])
              (13 ∷ 14 ∷ []))
            results
        × (length results ≤ 2))
unfolding after Dict.lookup Dict.insert sorted_heap
search_filtered_selects_example =
    search_filtered_selects line line-IsOrder near far near-IsHeap far-IsHeap (λ _. false) built
      (after-IsWellFormed calls) (7 ∷ []) built.dirty refl 2 0 (omega arith) fresh_tracker
      (13 ∷ 14 ∷ []) (omega arith)

fresh_tracker_blind_example :
    (d : ℕ) × (marked : Tracker) × (node_distance line built (7 ∷ []) 0 ≡ some d)
    × (search_layer line near far built (7 ∷ []) (λ _. false) 0 0 10 0 fresh_tracker none
        ≡ some ((record { node_idx = 0; dist = d }) ∷ [], marked))
unfolding after Dict.lookup Dict.insert sorted_heap
fresh_tracker_blind_example =
    fresh_tracker_blind line near far near-IsHeap far-IsHeap built (after-IsWellFormed calls).valid
      (7 ∷ []) (λ _. false) 10 0 0 0 none
      ((after-IsWellFormed calls).valid.entry (record { entry_point = 0; max_level = 0 }) refl)

-- One vector, in the graph.
abbrev single : HnswIndex ℕ
single = after (insert_call 10 (5 ∷ []) ∷ take_call ∷ apply_call 0 (λ _. 0) fresh_tracker ∷ [])

single-IsWellFormed : IsWellFormed single
single-IsWellFormed =
    after-IsWellFormed
      (insert_call 10 (5 ∷ []) ∷ take_call ∷ apply_call 0 (λ _. 0) fresh_tracker ∷ [])

single-NoMatch :
    NoMatch line near far near-IsHeap far-IsHeap single single-IsWellFormed.valid
      (7 ∷ [])
      (λ _. false)
      (99 ∷ [])
unfolding after has Dict.lookup Dict.insert sorted_heap
single-NoMatch zero node at = ap (λ n. has n.id (99 ∷ [])) (sym (some_inj at))
single-NoMatch (suc i) node at = absurd (ground (arith, at))

NoMatch-returns_entry_example :
    (node : Node) × (d : ℕ) × (used : Tracker) × (get_elem? single.nodes 0 ≡ some node)
    × (node_distance line single (7 ∷ []) 0 ≡ some d)
    × (search_filtered line near far (λ _. false) single [] (7 ∷ []) 3 0 (99 ∷ []) fresh_tracker
        ≡ some (ok (scored line single node.id d ∷ [], used)))
unfolding after Dict.lookup Dict.insert sorted_heap
NoMatch-returns_entry_example =
    NoMatch-returns_entry line near far near-IsHeap far-IsHeap single single-IsWellFormed.valid
      (7 ∷ []) (λ _. false) 3 0 (99 ∷ []) fresh_tracker 0 refl refl (omega arith) (omega arith)
      single-NoMatch

delete_outcome_example :
    ((Dict.lookup 14 built.id_to_node ≡ none)
      × (vector_of built 14 ≡ none)
      × (delete built 14 ≡ err vector_not_found))
    ⊎ ((i : ℕ) × (Dict.lookup 14 built.id_to_node ≡ some i)
        × (next : HnswIndex ℕ) × (delete built 14 ≡ ok next)
        × IsWellFormed next
        × ((at : ℕ) → vector_of next at ≡ (if 14 == at then none else vector_of built at)))
delete_outcome_example = delete_outcome built 14 (after-IsWellFormed calls)

next_gen_forgets_example :
    is_visited
      (next_gen (steps fresh_tracker (visit_step 3 ∷ next_gen_step ∷ visit_step 2000 ∷ [])))
      3
    ≡ false
next_gen_forgets_example = next_gen_forgets (visit_step 3 ∷ next_gen_step ∷ visit_step 2000 ∷ []) 3

-- Two vectors, in the graph, the first of them deleted.
abbrev pair_calls : List (Call ℕ)
pair_calls =
    insert_call 10 (5 ∷ [])
    ∷ insert_call 11 (9 ∷ [])
    ∷ take_call
    ∷ apply_call 0 (λ _. 0) fresh_tracker
    ∷ []

abbrev half : HnswIndex ℕ
half = with_tombstone (after pair_calls) 0

rebuild_reads_old_rows_example :
    (live : List (PendingInsert ℕ)) × (live_nodes line near far (λ _. 0) half 0 half.nodes
      ≡ some live)
    × ((rebuild line near far (λ _. 0) half fresh_tracker ≡ some (err duplicate_id))
        ⊎ ((next : HnswIndex ℕ) × (used : Tracker) × (rebuild line near far
                (λ _. 0)
                half
                fresh_tracker
              ≡ some (ok (next, used)))
            × ((j : ℕ) (p : PendingInsert ℕ)
                → get_elem? live j ≡ some p
                → (id_at next.nodes j ≡ some p.id) × (node_vector next j ≡ node_vector half j))))
unfolding after has Dict.lookup Dict.insert sorted_heap
rebuild_reads_old_rows_example =
    rebuild_reads_old_rows line line-IsOrder near far near-IsHeap far-IsHeap (λ _. 0) half
      fresh_tracker
      (with_tombstone-IsWellFormed (after pair_calls) 0 (after-IsWellFormed pair_calls)
        (omega arith))
      refl (omega arith)
