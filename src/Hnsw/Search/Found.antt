-- ===== src/Hnsw/Search/Found.antt =====
-- The searches of internal/index/hnsw/hnsw.go on a well-formed index: they return, and what they find.
use magnitude.Common.{
  ℕ, zero, suc, ◌+◌, ◌≤◌, ◌<◌, ◌≡◌, ◌⊎◌, refl, ◌∙◌, Bool, true, false, Option, none, some, List, [],
  ◌∷◌, ◌++◌, length, length-append, length-take, get_elem?, get_elem?_total, take, leb, arith,
  Bool-cases, Option-cases, inl, inr,
}
use magnitude.Common.Sort.{sort_by}
use magnitude.Common.Result.{Result, ok, err}
use magnitude.Hnsw.{◌>>=◌, All, Error, cancelled, Distances, Candidate, Node, Top, HnswIndex}
use magnitude.Hnsw.Tracker.{Tracker, next_gen}
use magnitude.Hnsw.Search.{
  SearchResult, scored, nearer, merge_results, merge_dirty, top_results, descend_asking,
  search_graph,
}
use magnitude.Hnsw.Valid.{layers_of-lt, HasLayer, IsValid, All-append}
use magnitude.Hnsw.Link.Neighbors.{sort_by-All}

pub take-All : {A : Type 0} (P : A → Type 0) (k : ℕ) (xs : List A) → All P xs → All P (take k xs)
take-All P zero xs all = tt
take-All P (suc k) [] all = tt
take-All P (suc k) (x ∷ xs) all = (all.0, take-All P k xs all.1)

module _ {F : Type 0} (ds : Distances F) (h : HnswIndex F) (v : IsValid h)
    (R : Candidate F → Type 0) (Q : SearchResult F → Type 0) (skipped : ℕ → Bool)
    (finds : (c : Candidate F) (node : Node)
      → R c
      → skipped c.node_idx ≡ false
      → get_elem? h.nodes c.node_idx ≡ some node
      → Q (scored ds h node.id c.dist))
    (k : ℕ) where
  top_results-skip :
      (c : Candidate F) (cs : List (Candidate F)) (results : List (SearchResult F))
      → skipped c.node_idx ≡ true
      → top_results ds h skipped k (c ∷ cs) results ≡ top_results ds h skipped k cs results
  unfolding top_results
  top_results-skip c cs results skip = rw (top_results, skip) refl

  -- The results after one more candidate.
  abbrev extended : List (SearchResult F) → Node → Candidate F → List (SearchResult F)
  extended results node c = results ++ scored ds h node.id c.dist ∷ []

  module _ (c : Candidate F) (cs : List (Candidate F)) (results : List (SearchResult F))
      (node : Node) (taken : skipped c.node_idx ≡ false)
      (at : get_elem? h.nodes c.node_idx ≡ some node) where
    top_results-full :
        leb k (length (extended results node c)) ≡ true
        → top_results ds h skipped k (c ∷ cs) results ≡ some (extended results node c)
    unfolding top_results
    top_results-full full = rw (top_results, taken, at, ◌>>=◌, full) refl

    top_results-more :
        leb k (length (extended results node c)) ≡ false
        → top_results ds h skipped k (c ∷ cs) results
          ≡ top_results ds h skipped k cs (extended results node c)
    unfolding top_results
    top_results-more more = rw (top_results, taken, at, ◌>>=◌, more) refl

  top_results_total :
      (cs : List (Candidate F)) (results : List (SearchResult F))
      → All (λ c. HasLayer h 0 c.node_idx × R c) cs
      → All Q results
      → length results < k
      → (out : List (SearchResult F)) × (top_results ds h skipped k cs results ≡ some out)
        × All Q out
        × (length out ≤ k)
  top_results_total [] results good found room =
      (results, unfold top_results in refl, found, omega arith)
  top_results_total (c ∷ cs) results good found room = elim (Bool-cases (skipped c.node_idx)) [
    | inl skip ↦
        (let (out, at, all, few) = top_results_total cs results good.1 found room in
          (out, top_results-skip c cs results skip ∙ at, all, few))
    | inr taken ↦
        (let (node, at) =
            get_elem?_total h.nodes c.node_idx (layers_of-lt h.nodes 0 c.node_idx good.0.0) in
          let all =
            All-append Q results (scored ds h node.id c.dist ∷ []) found
              (finds c node good.0.1 taken at, tt) in
          let long = length-append results (scored ds h node.id c.dist ∷ []) in
          elim (Bool-cases (leb k (length (extended results node c)))) [
            | inl full ↦ (
              extended results node c,
              top_results-full c cs results node taken at full,
              all,
              omega (arith, long),
            )
            | inr more ↦
                (let (out, at', all', few) =
                    top_results_total cs (extended results node c) good.1 all
                      (ground (arith, more)) in
                  (out, top_results-more c cs results node taken at more ∙ at', all', few))
          ])
  ]

  module _ (step : ℕ → ℕ → Option ℕ)
      (steps : (layer ep : ℕ)
        → HasLayer h layer ep
        → (next : ℕ) × (step ep layer ≡ some next) × HasLayer h layer next)
      (done : ℕ → Bool) where
    -- How the descent ends.
    data Descent (tick lc ep : ℕ) : Type 0 where
      was_cancelled :
          descend_asking ds step done tick lc ep ≡ some (err cancelled) → Descent tick lc ep
      arrived :
          (next ticks : ℕ)
          → descend_asking ds step done tick lc ep ≡ some (ok (next, ticks))
          → HasLayer h 0 next
          → Descent tick lc ep

    descend_asking-next :
        (tick lc ep next : ℕ)
        → done tick ≡ false
        → step ep (suc lc) ≡ some next
        → descend_asking ds step done tick (suc lc) ep
          ≡ descend_asking ds step done (tick + 1) lc next
    unfolding descend_asking
    descend_asking-next tick lc ep next goes_on at = rw (descend_asking, goes_on, at, ◌>>=◌) refl

    descend_asking-ends :
        (tick lc ep : ℕ)
        → done tick ≡ true
        → descend_asking ds step done tick (suc lc) ep ≡ some (err cancelled)
    unfolding descend_asking
    descend_asking-ends tick lc ep ends = rw (descend_asking, ends) refl

    descend_asking_total : (lc tick ep : ℕ) → HasLayer h lc ep → Descent tick lc ep
    descend_asking_total zero tick ep on = arrived ep tick (unfold descend_asking in refl) on
    descend_asking_total (suc lc) tick ep on = elim (Bool-cases (done tick)) [
      | inl ends ↦ was_cancelled (descend_asking-ends tick lc ep ends)
      | inr goes_on ↦
          (let (next, at, on') = steps (suc lc) ep on in
            elim (descend_asking_total lc (tick + 1) next (omega (arith, on'))) [
              | was_cancelled ends ↦
                  was_cancelled (descend_asking-next tick lc ep next goes_on at ∙ ends)
              | arrived last ticks ends on'' ↦
                  arrived last ticks (descend_asking-next tick lc ep next goes_on at ∙ ends) on''
            ])
    ]

    module _ (beam : ℕ → ℕ → Option (List (Candidate F) × Tracker))
        (beams : (top : Top) (tick ep : ℕ)
          → h.top ≡ some top
          → descend_asking ds step done 0 top.max_level top.entry_point ≡ some (ok (ep, tick))
          → HasLayer h 0 ep
          → (cs : List (Candidate F)) × (marked : Tracker) × (beam tick ep ≡ some (cs, marked))
            × All (λ c. HasLayer h 0 c.node_idx × R c) cs)
        (dirty : List (SearchResult F)) (vt : Tracker) where
      -- The search with the parameters of the section.
      abbrev the_search : Option (Result Error (List (SearchResult F) × Tracker))
      the_search = search_graph ds h step beam skipped done k dirty vt

      search_graph-empty : h.top ≡ none → the_search ≡ some (ok (dirty, vt))
      unfolding search_graph
      search_graph-empty empty = rw (search_graph, empty) refl

      search_graph-cancelled :
          (top : Top)
          → h.top ≡ some top
          → descend_asking ds step done 0 top.max_level top.entry_point ≡ some (err cancelled)
          → the_search ≡ some (err cancelled)
      unfolding search_graph
      search_graph-cancelled top at ends = rw (search_graph, at, ends, ◌>>=◌) refl

      search_graph-found :
          (top : Top) (ep tick : ℕ) (cs : List (Candidate F)) (marked : Tracker)
          (results : List (SearchResult F))
          → h.top ≡ some top
          → descend_asking ds step done 0 top.max_level top.entry_point ≡ some (ok (ep, tick))
          → beam tick ep ≡ some (cs, marked)
          → top_results ds h skipped k cs [] ≡ some results
          → the_search ≡ some (ok (merge_dirty ds results dirty k, next_gen marked))
      unfolding search_graph
      search_graph-found top ep tick cs marked results at ends searched found =
          rw (search_graph, at, ends, ◌>>=◌, searched, found) refl

      merge_dirty-All :
          (main pending : List (SearchResult F))
          → All Q main
          → All Q pending
          → length main ≤ k
          → All Q (merge_dirty ds main pending k) × (length (merge_dirty ds main pending k) ≤ k)
      unfolding merge_results
      merge_dirty-All main [] all pending few = (all, few)
      merge_dirty-All main (r ∷ rs) all pending few = (
        take-All Q k (sort_by (nearer ds) (main ++ r ∷ rs))
            (sort_by-All (nearer ds) Q (main ++ r ∷ rs) (All-append Q main (r ∷ rs) all pending)),
        omega (arith, length-take k (sort_by (nearer ds) (main ++ r ∷ rs))),
      )

      -- A search is cancelled, or returns at most k results that all pass.
      pub search_graph_total :
          0 < k
          → All Q dirty
          → length dirty ≤ k
          → (the_search ≡ some (err cancelled))
            ⊎ ((results : List (SearchResult F)) × (used : Tracker) × (the_search
                  ≡ some (ok (results, used)))
                × All Q results
                × (length results ≤ k))
      search_graph_total some_k pending few = elim (Option-cases h.top) [
        | inl empty ↦ inr (dirty, vt, search_graph-empty empty, pending, few)
        | inr (top, at) ↦
            elim (descend_asking_total top.max_level 0 top.entry_point (v.entry top at)) [
              | was_cancelled ends ↦ inl (search_graph-cancelled top at ends)
              | arrived ep tick ends on ↦
                  (let (cs, marked, searched, reached) = beams top tick ep at ends on in
                    let (results, found, all, short) = top_results_total cs [] reached tt some_k in
                    let (all', short') = merge_dirty-All results dirty all pending short in
                    inr (
                      merge_dirty ds results dirty k,
                      next_gen marked,
                      search_graph-found top ep tick cs marked results at ends searched found,
                      all',
                      short',
                    ))
            ]
      ]
