-- ===== src/Hnsw/Beam/Reached.antt =====
-- The loop of the beam search of internal/index/hnsw/hnsw.go on a well-formed index, with enough fuel.
use magnitude.Common.{
  ℕ, zero, suc, ◌+◌, ◌≤◌, ◌<◌, ◌≡◌, refl, ap, ◌∙◌, ◌⊎◌, Bool, true, false, Option, some, List, [],
  ◌∷◌, length, leb, arith, Bool-cases, inl, inr,
}
use magnitude.Hnsw.{◌>>=◌, All, Distances, Candidate, Heap, IsHeap, HnswIndex, node_vector}
use magnitude.Hnsw.Tracker.{Tracker, grow, mark}
use magnitude.Hnsw.Walk.{node_distance}
use magnitude.Hnsw.Beam.{
  Beam, Progress, going, stopped, pop_all, measure, explore, is_beyond, start_beam, beam_search,
}
use magnitude.Hnsw.Valid.{layers_of-lt, HasLayer, IsValid, node_vector_total, friends_on_total}
use magnitude.Hnsw.Tracker.Visits.{unvisited_below, unvisited_below-le}
use magnitude.Hnsw.Beam.Collects.{collect_unvisited_total, pop_all_total}
use magnitude.Hnsw.Beam.Offers.{beam_of, IsBeam, root_total, pop_total, offer_all_total}
use magnitude.Hnsw.Beam.Rounds.{
  loop, loop-empty, loop-beyond, loop-stops, loop-goes_on, explore-offers,
}

-- A distance of the query from a node's vector, by either of the two functions.
pub record FromVector {F : Type 0} (ds : Distances F) (h : HnswIndex F) (query : List F) (i : ℕ)
    (d : F) : Type 0 where
  pub vector : List F
  pub stored : node_vector h i ≡ some vector
  pub measured :
      (d ≡ ds.distance_func h.metric query vector) ⊎ (d ≡ ds.batch_distance h.metric query vector)

List-cases : {A : Type 0} (xs : List A) → (xs ≡ []) ⊎ ((y : A) × (ys : List A) × (xs ≡ y ∷ ys))
List-cases [] = inl refl
List-cases (x ∷ xs) = inr (x, xs, refl)

module _ {F : Type 0} (ds : Distances F) (nearest furthest : Heap (Candidate F))
    (is_near : IsHeap nearest) (is_far : IsHeap furthest) (h : HnswIndex F) (v : IsValid h)
    (query : List F) (keep : ℕ → Option Bool)
    (decides : (i : ℕ) → i < length h.nodes → (b : Bool) × (keep i ≡ some b)) (ef layer : ℕ)
    (done : ℕ → Bool) (ep : ℕ) where
  -- A candidate of a search from `ep`: a node of the layer, which the test keeps unless it is `ep`.
  pub record IsReached (c : Candidate F) : Type 0 where
    pub on_layer : HasLayer h layer c.node_idx
    pub kept : (c.node_idx ≡ ep) ⊎ (keep c.node_idx ≡ some true)
    pub distance : FromVector ds h query c.node_idx c.dist

  below : (i : ℕ) → HasLayer h layer i → i < length h.nodes
  below i on = layers_of-lt h.nodes layer i on

  measure-step :
      (f : ℕ) (fs : List ℕ) (vec : List F) (rest : List (Candidate F))
      → node_vector h f ≡ some vec
      → measure ds nearest furthest h query fs ≡ some rest
      → measure ds nearest furthest h query (f ∷ fs)
        ≡ some ((record { node_idx = f; dist = ds.batch_distance h.metric query vec }) ∷ rest)
  unfolding measure
  measure-step f fs vec rest found at = rw (measure, found, at, ◌>>=◌) refl

  measure_total :
      (fs : List ℕ)
      → All (λ i. HasLayer h layer i × (keep i ≡ some true)) fs
      → (cs : List (Candidate F)) × (measure ds nearest furthest h query fs ≡ some cs)
        × All IsReached cs
        × (length cs ≡ length fs)
  measure_total [] ok = ([], unfold measure in refl, tt, refl)
  measure_total (f ∷ fs) ok =
      let (vec, found, _) = node_vector_total h v f (below f ok.0.0) in
      let (cs, at, reached, long) = measure_total fs ok.1 in
      (
        (record { node_idx = f; dist = ds.batch_distance h.metric query vec }) ∷ cs,
        measure-step f fs vec cs found at,
        (
          record {
            on_layer = ok.0.0;
            kept = inr ok.0.1;
            distance = record { vector = vec; stored = found; measured = inr refl };
          },
          reached,
        ),
        omega arith,
      )

  -- What a round can still cost: the candidates, and the nodes that are not visited.
  cost : Beam F → ℕ
  cost b = length b.cands + unvisited_below b.tracker (length h.nodes)

  explore_total :
      (c : Candidate F) (b : Beam F)
      → IsReached c
      → IsBeam IsReached b
      → (p : Progress F) × (explore ds nearest furthest h query keep ef layer done c b ≡ some p)
        × IsBeam IsReached (beam_of p)
        × (cost (beam_of p) ≤ cost b)
  unfolding cost
  explore_total c b ok is =
      let (fs, at, few, linked) =
        friends_on_total h v c.node_idx layer (below c.node_idx ok.on_layer) in
      let (us, marked, collected, c1) =
        collect_unvisited_total (length h.nodes) keep decides (HasLayer h layer) below fs b.tracker
          linked in
      let (cs, measured, reached, long) = measure_total us c1.all in
      let is' : IsBeam IsReached (record b { tracker = marked }) = record {
        cands = is.cands;
        results = is.results;
        some_result = is.some_result;
      } in
      let (p, offered, o) =
        offer_all_total IsReached ds nearest furthest is_near is_far ef done 0 cs
          (record b { tracker = marked }) reached is' in
      (
        p,
        explore-offers ds nearest furthest h query keep ef layer done c b fs us marked cs at
              collected (ground (arith, c1.few, few)) measured
            ∙ offered,
        o.is_beam,
        rw o.tracker (omega (arith, o.cost, c1.cost, long)),
      )

  pub is_beyond_total :
      (c : Candidate F) (results : List (Candidate F))
      → 0 < length results
      → (b : Bool) × (is_beyond ds nearest furthest h query keep ef layer done c results ≡ some b)
  unfolding is_beyond
  is_beyond_total c results some_result = elim (Bool-cases (leb ef (length results))) [
    | inl full ↦
        (let (worst, at) = root_total IsReached results some_result in
          (ds.less worst.dist c.dist, rw (is_beyond, full, at, ◌>>=◌) refl))
    | inr room ↦ (false, rw (is_beyond, room) refl)
  ]

  -- What is left for the rounds after one that has not ended the loop.
  data Round (fuel : ℕ) (b : Beam F) : Type 0 where
    ended :
        (last : Beam F)
        → loop ds nearest furthest h query keep ef layer done (suc fuel) b ≡ some last
        → IsBeam IsReached last
        → Round fuel b
    continued :
        (next : Beam F)
        → loop ds nearest furthest h query keep ef layer done (suc fuel) b
          ≡ loop ds nearest furthest h query keep ef layer done fuel next
        → IsBeam IsReached next
        → cost next < cost b
        → Round fuel b

  explored_round :
      (fuel : ℕ) (b : Beam F) (x c : Candidate F) (xs rest : List (Candidate F)) (p : Progress F)
      → b.cands ≡ x ∷ xs
      → nearest.pop b.cands ≡ some (c, rest)
      → is_beyond ds nearest furthest h query keep ef layer done c b.results ≡ some false
      → explore ds nearest furthest h query keep ef layer done c (record b { cands = rest })
        ≡ some p
      → IsBeam IsReached (beam_of p)
      → cost (beam_of p) < cost b
      → Round fuel b
  explored_round fuel b x c xs rest (going next) at popped near explored is spent =
      continued next
        (loop-goes_on ds nearest furthest h query keep ef layer done fuel b next x c xs rest at
          popped near explored)
        is spent
  explored_round fuel b x c xs rest (stopped last) at popped near explored is spent =
      ended last
        (loop-stops ds nearest furthest h query keep ef layer done fuel b last x c xs rest at popped
          near explored)
        is

  round_total :
      (fuel : ℕ) (b : Beam F) (x : Candidate F) (xs : List (Candidate F))
      → IsBeam IsReached b
      → b.cands ≡ x ∷ xs
      → Round fuel b
  unfolding cost
  round_total fuel b x xs is at =
      let (c, rest, popped, reached, others, shorter) =
        pop_total nearest is_near IsReached b.cands is.cands (ground (arith, at, ap length at)) in
      let popped_beam : IsBeam IsReached (record b { cands = rest }) = record {
        cands = others;
        results = is.results;
        some_result = is.some_result;
      } in
      let (beyond, asked) = is_beyond_total c b.results is.some_result in
      let (p, explored, is', spent) =
        explore_total c (record b { cands = rest }) reached popped_beam in
      elim (Bool-cases beyond) [
        | inl far ↦
            ended (record b { cands = rest })
              (loop-beyond ds nearest furthest h query keep ef layer done fuel b x c xs rest at
                popped (asked ∙ ap some far))
              popped_beam
        | inr near ↦
            explored_round fuel b x c xs rest p at popped (asked ∙ ap some near) explored is'
              (omega (arith, spent, shorter))
      ]

  loop_total :
      (fuel : ℕ) (b : Beam F)
      → IsBeam IsReached b
      → cost b < fuel
      → (last : Beam F) × (loop ds nearest furthest h query keep ef layer done fuel b ≡ some last)
        × IsBeam IsReached last
  loop_total zero b is enough = elim enough [ ]
  loop_total (suc fuel) b is enough = elim (List-cases b.cands) [
    | inl empty ↦ (b, loop-empty ds nearest furthest h query keep ef layer done fuel b empty, is)
    | inr (x, xs, at) ↦ elim (round_total fuel b x xs is at) [
      | ended last ends is' ↦ (last, ends, is')
      | continued next goes_on is' spent ↦
          (let (last, ends, is'') = loop_total fuel next is' (omega arith) in
            (last, goes_on ∙ ends, is''))
    ]
  ]

  pub node_distance_at :
      (vec : List F)
      → node_vector h ep ≡ some vec
      → node_distance ds h query ep ≡ some (ds.distance_func h.metric query vec)
  unfolding node_distance
  node_distance_at vec stored = rw (node_distance, stored, ◌>>=◌) refl

  pub beam_search-sorted :
      (vt : Tracker) (tick : ℕ) (d : F) (last : Beam F) (sorted : List (Candidate F))
      → node_distance ds h query ep ≡ some d
      → loop ds nearest furthest h query keep ef layer done
          (length h.nodes + 2)
          (start_beam ds nearest furthest h query keep ef layer done vt tick ep d)
        ≡ some last
      → pop_all furthest (length last.results) last.results [] ≡ some sorted
      → beam_search ds nearest furthest h query keep ef layer done vt tick ep
        ≡ some (sorted, last.tracker)
  unfolding beam_search
  beam_search-sorted vt tick d last sorted found ends popped =
      rw (beam_search, found, ◌>>=◌, ends, popped) refl

  -- A beam search returns candidates that it has reached, at least one.
  pub beam_search_total :
      (vt : Tracker) (tick : ℕ)
      → HasLayer h layer ep
      → (out : List (Candidate F)) × (marked : Tracker) × (beam_search ds nearest furthest h query
            keep ef layer done vt tick ep
          ≡ some (out, marked))
        × All IsReached out
        × (0 < length out)
  unfolding cost
  beam_search_total vt tick on =
      let (vec, stored, _) = node_vector_total h v ep (below ep on) in
      let d = ds.distance_func h.metric query vec in
      let found : node_distance ds h query ep ≡ some d = node_distance_at vec stored in
      let start : IsReached (record { node_idx = ep; dist = d }) = record {
        on_layer = on;
        kept = inl refl;
        distance = record { vector = vec; stored = stored; measured = inl refl };
      } in
      let (last, ends, is) =
        loop_total (length h.nodes + 2)
          (start_beam ds nearest furthest h query keep ef layer done vt tick ep d)
          (record { cands = (start, tt); results = (start, tt); some_result = omega arith })
          (omega (arith, unvisited_below-le (mark (grow vt ep) ep) (length h.nodes))) in
      let (out, popped, reached, long) =
        pop_all_total furthest is_far IsReached (length last.results) last.results [] refl
          is.results tt in
      (
        out,
        last.tracker,
        beam_search-sorted vt tick d last out found ends popped,
        reached,
        omega (arith, is.some_result),
      )
