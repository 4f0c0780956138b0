-- ===== src/Hnsw/Beam/Blind.antt =====
-- Beam searches of internal/index/hnsw/hnsw.go that explore nothing.
use magnitude.Common.{
  ℕ, suc, ◌+◌, ◌<◌, ◌≡◌, refl, ap, ◌∙◌, Bool, Option, some, List, [], ◌∷◌, length, nat_keyed, arith,
  Bool-cases, inl, inr,
}
use magnitude.Hnsw.{All, Distances, Candidate, Heap, IsHeap, HnswIndex, friends_on}
use magnitude.Hnsw.Tracker.{Tracker, grow, mark}
use magnitude.Hnsw.Walk.{node_distance}
use magnitude.Hnsw.Beam.{
  Beam, going, collect_unvisited, pop_all, offer_all, measure, explore, start_beam, beam_search,
}
use magnitude.Hnsw.Valid.{layers_of-lt, HasLayer, IsValid, node_vector_total, friends_on_total}
use magnitude.Hnsw.Beam.Collects.{pop_all-step}
use magnitude.Hnsw.Beam.Reached.{is_beyond_total, node_distance_at, beam_search-sorted}
use magnitude.Hnsw.Beam.Rounds.{explore-offers, loop, loop-empty, loop-beyond, loop-goes_on}

length-zero : {A : Type 0} (xs : List A) → length xs ≡ 0 → xs ≡ []
length-zero [] h = refl
length-zero (x ∷ xs) h = absurd (ground (arith, h))

-- A pop of a heap of one element.
pop_single :
    {A : Type 0} (heap : Heap A) (is : IsHeap heap) (a : A) → heap.pop (a ∷ []) ≡ some (a, [])
pop_single heap is a =
    let (b, rest, popped) = is.pop_some a [] in
    let shorter = is.pop-length (a ∷ []) rest b popped in
    let same : b ≡ a = (is.pop-All (λ x. x ≡ a) (a ∷ []) rest b popped (refl, tt)).0 in
    let empty : rest ≡ [] = length-zero rest (omega arith) in
    popped ∙ ap (λ x. some (x, rest)) same ∙ ap (λ xs. some (a, xs)) empty

pop_all_single :
    {A : Type 0} (heap : Heap A) (is : IsHeap heap) (a : A)
    → pop_all heap 1 (a ∷ []) [] ≡ some (a ∷ [])
pop_all_single heap is a =
    pop_all-step heap 0 (a ∷ []) [] [] a (pop_single heap is a) ∙ (unfold pop_all in refl)

module _ {F : Type 0} (ds : Distances F) (nearest furthest : Heap (Candidate F))
    (is_near : IsHeap nearest) (is_far : IsHeap furthest) (h : HnswIndex F) (v : IsValid h)
    (query : List F) (keep : ℕ → Option Bool)
    (decides : (i : ℕ) → i < length h.nodes → (b : Bool) × (keep i ≡ some b)) (ef layer : ℕ)
    (done : ℕ → Bool) (ep : ℕ) (on : HasLayer h layer ep) (vt : Tracker) (tick : ℕ) where
  -- The entry point with a distance, as a candidate.
  abbrev at_entry : F → Candidate F
  at_entry d = record { node_idx = ep; dist = d }

  -- The first beam without its candidate.
  abbrev emptied : F → Tracker → Beam F
  emptied d marked = record { cands = []; results = at_entry d ∷ []; tracker = marked; tick = tick }

  the_loop : ℕ → Beam F → Option (Beam F)
  the_loop = loop ds nearest furthest h query keep ef layer done

  blind_explore :
      (d : F) (fs : List ℕ) (tracker marked : Tracker)
      → friends_on h ep layer ≡ some fs
      → collect_unvisited keep tracker fs ≡ some ([], marked)
      → explore ds nearest furthest h query keep ef layer done (at_entry d) (emptied d tracker)
        ≡ some (going (emptied d marked))
  unfolding measure offer_all
  blind_explore d fs tracker marked at collected =
      explore-offers ds nearest furthest h query keep ef layer done (at_entry d) (emptied d tracker)
        fs [] marked [] at collected (ground arith) refl

  -- The tracker of the first beam.
  abbrev start_tracker : Tracker
  start_tracker = mark (grow vt ep) ep

  blind_loop :
      (fuel : ℕ) (d : F) (fs : List ℕ) (marked : Tracker)
      → friends_on h ep layer ≡ some fs
      → collect_unvisited keep start_tracker fs ≡ some ([], marked)
      → (last : Tracker) × (the_loop
            (suc (suc fuel))
            (start_beam ds nearest furthest h query keep ef layer done vt tick ep d)
          ≡ some (emptied d last))
  unfolding the_loop
  blind_loop fuel d fs marked at collected =
      let c = at_entry d in
      let b = start_beam ds nearest furthest h query keep ef layer done vt tick ep d in
      let (beyond, asked) =
        is_beyond_total ds nearest furthest is_near is_far h v query keep decides ef layer done ep c
          (c ∷ []) (omega arith) in
      elim (Bool-cases beyond) [
        | inl far ↦ (
          start_tracker,
          loop-beyond ds nearest furthest h query keep ef layer done (suc fuel) b c c [] [] refl
              (pop_single nearest is_near c) (asked ∙ ap some far),
        )
        | inr near ↦ (
          marked,
          loop-goes_on ds nearest furthest h query keep ef layer done (suc fuel) b
                (emptied d marked) c c [] [] refl (pop_single nearest is_near c)
                (asked ∙ ap some near) (blind_explore d fs start_tracker marked at collected)
              ∙ loop-empty ds nearest furthest h query keep ef layer done fuel (emptied d marked)
                  refl,
        )
      ]

  -- A search that collects no friend of its entry point returns the entry point.
  pub blind_search :
      ((fs : List ℕ)
        → All (HasLayer h layer) fs
        → (marked : Tracker) × (collect_unvisited keep start_tracker fs ≡ some ([], marked)))
      → (d : F) × (marked : Tracker) × (node_distance ds h query ep ≡ some d)
        × (beam_search ds nearest furthest h query keep ef layer done vt tick ep
            ≡ some (at_entry d ∷ [], marked))
  unfolding the_loop
  blind_search blind =
      let known = layers_of-lt h.nodes layer ep on in
      let (vec, stored, _) = node_vector_total h v ep known in
      let d = ds.distance_func h.metric query vec in
      let found : node_distance ds h query ep ≡ some d =
        node_distance_at ds nearest furthest is_near is_far h v query keep decides ef layer done ep
          vec stored in
      let (fs, at, few, linked) = friends_on_total h v ep layer known in
      let (marked, collected) = blind fs linked in
      let (last, ends) = blind_loop (length h.nodes) d fs marked at collected in
      let fuel : length h.nodes + 2 ≡ suc (suc (length h.nodes)) = omega arith in
      (
        d,
        last,
        found,
        beam_search-sorted ds nearest furthest is_near is_far h v query keep decides ef layer done
            ep vt tick d (emptied d last) (at_entry d ∷ []) found
            (ap
                (λ n.
                  the_loop n
                    (start_beam ds nearest furthest h query keep ef layer done vt tick ep d))
                fuel
              ∙ ends)
            (pop_all_single furthest is_far (at_entry d)),
      )
