-- ===== src/Hnsw/Beam/Offers.antt =====
-- The heaps of the beam search of internal/index/hnsw/hnsw.go, as candidates are offered to them.
use magnitude.Common.{
  ℕ, ◌+◌, ◌%◌, ◌≤◌, ◌<◌, ◌≡◌, refl, ap, ◌∙◌, Bool, true, false, ◌&&◌, some, List, [], ◌∷◌, length,
  ltb, ◌==◌, nat_keyed, if◌then◌else◌, arith, Bool-cases, inl, inr,
}
use magnitude.Hnsw.{◌>>=◌, All, Distances, Candidate, Heap, IsHeap}
use magnitude.Hnsw.Beam.{
  Beam, Progress, going, stopped, root, has_place, keep_best, offer, offer_all,
}

abbrev pub beam_of : {F : Type 0} → Progress F → Beam F
beam_of (going b) = b
beam_of (stopped b) = b

-- A pop of a heap that is not empty.
pub pop_total :
    {A : Type 0} (heap : Heap A) (is : IsHeap heap) (P : A → Type 0) (h : List A)
    → All P h
    → 0 < length h
    → (a : A) × (rest : List A) × (heap.pop h ≡ some (a, rest))
      × P a
      × All P rest
      × (length h ≡ length rest + 1)
pop_total heap is P [] ok h = elim h [ ]
pop_total heap is P (x ∷ xs) ok h =
    let (a, rest, popped) = is.pop_some x xs in
    let (first, others) = is.pop-All P (x ∷ xs) rest a popped ok in
    (a, rest, popped, first, others, is.pop-length (x ∷ xs) rest a popped)

module _ {F : Type 0} (P : Candidate F → Type 0) where
  -- A beam of candidates that all pass, with some result.
  pub record IsBeam (b : Beam F) : Type 0 where
    pub cands : All P b.cands
    pub results : All P b.results
    pub some_result : 0 < length b.results

  -- What an offer of n candidates leaves of a beam.
  pub record Offered (n : ℕ) (b next : Beam F) : Type 0 where
    pub is_beam : IsBeam next
    pub tracker : next.tracker ≡ b.tracker
    pub cost : length next.cands ≤ n + length b.cands

  pub root_total :
      (cs : List (Candidate F)) → 0 < length cs → (c : Candidate F) × (root cs ≡ some c)
  root_total [] h = elim h [ ]
  root_total (c ∷ cs) h = (c, refl)

  module _ (ds : Distances F) (nearest furthest : Heap (Candidate F)) (is_near : IsHeap nearest)
      (is_far : IsHeap furthest) (ef : ℕ) where
    has_place_total :
        (d : F) (results : List (Candidate F))
        → 0 < length results
        → (b : Bool) × (has_place ds nearest furthest ef d results ≡ some b)
    unfolding has_place
    has_place_total d results h = elim (Bool-cases (ltb (length results) ef)) [
      | inl room ↦ (true, rw (has_place, room) refl)
      | inr full ↦
          (let (worst, at) = root_total results h in
            (ds.less d worst.dist, rw (has_place, full, at, ◌>>=◌) refl))
    ]

    keep_best_total :
        (b : Beam F)
        → All P b.cands
        → All P b.results
        → 1 < length b.results
        → (next : Beam F) × (keep_best ds nearest furthest ef b ≡ some next) × Offered 0 b next
    unfolding keep_best
    keep_best_total b ok_cands ok more = elim (Bool-cases (ltb ef (length b.results))) [
      | inr fits ↦ (
        b,
        rw (keep_best, fits) refl,
        record {
          is_beam = record { cands = ok_cands; results = ok; some_result = omega arith };
          tracker = refl;
          cost = omega arith;
        },
      )
      | inl over ↦
          (let (worst, rest, popped, _, others, shorter) =
              pop_total furthest is_far P b.results ok (omega arith) in
            (
              record b { results = rest },
              rw (keep_best, over, popped, ◌>>=◌) refl,
              record {
                is_beam = record { cands = ok_cands; results = others; some_result = omega arith };
                tracker = refl;
                cost = omega arith;
              },
            ))
    ]

    pushed : Candidate F → Beam F → Beam F
    pushed c b = record b { cands = nearest.push c b.cands; results = furthest.push c b.results }

    offer-refused :
        (c : Candidate F) (b : Beam F)
        → has_place ds nearest furthest ef c.dist b.results ≡ some false
        → offer ds nearest furthest ef c b ≡ some b
    unfolding offer
    offer-refused c b place = rw (offer, place, ◌>>=◌) refl

    offer-taken :
        (c : Candidate F) (b : Beam F)
        → has_place ds nearest furthest ef c.dist b.results ≡ some true
        → offer ds nearest furthest ef c b ≡ keep_best ds nearest furthest ef (pushed c b)
    unfolding offer pushed
    offer-taken c b place = rw (offer, place, ◌>>=◌) refl

    offer_total :
        (c : Candidate F) (b : Beam F)
        → P c
        → IsBeam b
        → (next : Beam F) × (offer ds nearest furthest ef c b ≡ some next) × Offered 1 b next
    unfolding pushed
    offer_total c b ok is =
        let (place, asked) = has_place_total c.dist b.results is.some_result in
        elim (Bool-cases place) [
          | inr refused ↦ (
            b,
            offer-refused c b (asked ∙ ap some refused),
            record { is_beam = is; tracker = refl; cost = omega arith },
          )
          | inl taken ↦
              (let (next, at, o) =
                  keep_best_total (pushed c b) (is_near.push-All P c b.cands ok is.cands)
                    (is_far.push-All P c b.results ok is.results)
                    (omega (arith, is_far.push-length c b.results, is.some_result)) in
                (
                  next,
                  offer-taken c b (asked ∙ ap some taken) ∙ at,
                  record {
                    is_beam = o.is_beam;
                    tracker = o.tracker;
                    cost = omega (arith, o.cost, is_near.push-length c b.cands);
                  },
                ))
        ]

    offer_all-stops :
        (done : ℕ → Bool) (i : ℕ) (c : Candidate F) (cs : List (Candidate F)) (b : Beam F)
        → (i % 100 == 0 && done b.tick) ≡ true
        → offer_all ds nearest furthest ef done i (c ∷ cs) b ≡ some (stopped b)
    unfolding offer_all
    offer_all-stops done i c cs b asked = rw (offer_all, asked) refl

    -- The beam after the context was asked, if it was.
    asked_beam : ℕ → Beam F → Beam F
    asked_beam i b = if i % 100 == 0 then record b { tick = b.tick + 1 } else b

    offer_all-goes_on :
        (done : ℕ → Bool) (i : ℕ) (c : Candidate F) (cs : List (Candidate F)) (b next : Beam F)
        → (i % 100 == 0 && done b.tick) ≡ false
        → offer ds nearest furthest ef c (asked_beam i b) ≡ some next
        → offer_all ds nearest furthest ef done i (c ∷ cs) b
          ≡ offer_all ds nearest furthest ef done (i + 1) cs next
    unfolding offer_all asked_beam
    offer_all-goes_on done i c cs b next asked at = rw (offer_all, asked, at, ◌>>=◌) refl

    asked_beam-Offered : (i : ℕ) (b : Beam F) → IsBeam b → Offered 0 b (asked_beam i b)
    unfolding asked_beam
    asked_beam-Offered i b is = elim (Bool-cases (i % 100 == 0)) [
      | inl asks ↦ rw asks (record {
        is_beam = record { cands = is.cands; results = is.results; some_result = is.some_result };
        tracker = refl;
        cost = omega arith;
      })
      | inr passes ↦ rw passes (record { is_beam = is; tracker = refl; cost = omega arith })
    ]

    pub offer_all_total :
        (done : ℕ → Bool) (i : ℕ) (cs : List (Candidate F)) (b : Beam F)
        → All P cs
        → IsBeam b
        → (p : Progress F) × (offer_all ds nearest furthest ef done i cs b ≡ some p)
          × Offered (length cs) b (beam_of p)
    offer_all_total done i [] b ok is = (
      going b,
      unfold offer_all in refl,
      record { is_beam = is; tracker = refl; cost = omega arith },
    )
    offer_all_total done i (c ∷ cs) b ok is = elim (Bool-cases (i % 100 == 0 && done b.tick)) [
      | inl stops ↦ (
        stopped b,
        offer_all-stops done i c cs b stops,
        record { is_beam = is; tracker = refl; cost = omega arith },
      )
      | inr goes_on ↦
          (let a = asked_beam-Offered i b is in
            let (next, offered, o) = offer_total c (asked_beam i b) ok.0 a.is_beam in
            let (p, at, rest) = offer_all_total done (i + 1) cs next ok.1 o.is_beam in
            (
              p,
              offer_all-goes_on done i c cs b next goes_on offered ∙ at,
              record {
                is_beam = rest.is_beam;
                tracker = rest.tracker ∙ o.tracker ∙ a.tracker;
                cost = omega (arith, rest.cost, o.cost, a.cost);
              },
            ))
    ]
