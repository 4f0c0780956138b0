-- ===== src/Hnsw/Beam/Rounds.antt =====
-- The cases of one round of the beam search of internal/index/hnsw/hnsw.go.
use magnitude.Common.{
  ℕ, suc, ◌≡◌, refl, Bool, true, false, Option, some, List, [], ◌∷◌, length, leb,
}
use magnitude.Hnsw.{◌>>=◌, Distances, Candidate, Heap, HnswIndex, friends_on}
use magnitude.Hnsw.Tracker.{Tracker}
use magnitude.Hnsw.Beam.{
  Beam, going, stopped, collect_unvisited, offer_all, measure, explore, is_beyond, beam_loop,
}

module _ {F : Type 0} (ds : Distances F) (nearest furthest : Heap (Candidate F)) (h : HnswIndex F)
    (query : List F) (keep : ℕ → Option Bool) (ef layer : ℕ) (done : ℕ → Bool) where
  pub explore-offers :
      (c : Candidate F) (b : Beam F) (fs us : List ℕ) (marked : Tracker) (cs : List (Candidate F))
      → friends_on h c.node_idx layer ≡ some fs
      → collect_unvisited keep b.tracker fs ≡ some (us, marked)
      → leb (length us) h.m_max0 ≡ true
      → measure ds nearest furthest h query us ≡ some cs
      → explore ds nearest furthest h query keep ef layer done c b
        ≡ offer_all ds nearest furthest ef done 0 cs (record b { tracker = marked })
  unfolding explore
  explore-offers c b fs us marked cs at collected few measured =
      rw (explore, at, collected, ◌>>=◌, few, measured) refl

  -- The loop, with the parameters of the section.
  abbrev pub loop : ℕ → Beam F → Option (Beam F)
  loop = beam_loop ds nearest furthest h query keep ef layer done

  pub loop-empty : (fuel : ℕ) (b : Beam F) → b.cands ≡ [] → loop (suc fuel) b ≡ some b
  unfolding beam_loop
  loop-empty fuel b at = simp (beam_loop, at)

  pub loop-beyond :
      (fuel : ℕ) (b : Beam F) (x c : Candidate F) (xs rest : List (Candidate F))
      → b.cands ≡ x ∷ xs
      → nearest.pop b.cands ≡ some (c, rest)
      → is_beyond ds nearest furthest h query keep ef layer done c b.results ≡ some true
      → loop (suc fuel) b ≡ some (record b { cands = rest })
  unfolding beam_loop
  loop-beyond fuel b x c xs rest at popped beyond = rw (beam_loop, at, popped, ◌>>=◌, beyond) refl

  pub loop-stops :
      (fuel : ℕ) (b last : Beam F) (x c : Candidate F) (xs rest : List (Candidate F))
      → b.cands ≡ x ∷ xs
      → nearest.pop b.cands ≡ some (c, rest)
      → is_beyond ds nearest furthest h query keep ef layer done c b.results ≡ some false
      → explore ds nearest furthest h query keep ef layer done c (record b { cands = rest })
        ≡ some (stopped last)
      → loop (suc fuel) b ≡ some last
  unfolding beam_loop
  loop-stops fuel b last x c xs rest at popped near explored =
      rw (beam_loop, at, popped, ◌>>=◌, near, explored) refl

  pub loop-goes_on :
      (fuel : ℕ) (b next : Beam F) (x c : Candidate F) (xs rest : List (Candidate F))
      → b.cands ≡ x ∷ xs
      → nearest.pop b.cands ≡ some (c, rest)
      → is_beyond ds nearest furthest h query keep ef layer done c b.results ≡ some false
      → explore ds nearest furthest h query keep ef layer done c (record b { cands = rest })
        ≡ some (going next)
      → loop (suc fuel) b ≡ loop fuel next
  unfolding beam_loop
  loop-goes_on fuel b next x c xs rest at popped near explored =
      rw (beam_loop, at, popped, ◌>>=◌, near, explored) refl
