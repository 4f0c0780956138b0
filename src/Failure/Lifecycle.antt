-- ===== src/Failure/Lifecycle.antt =====
-- Start and Stop of the detector.
use magnitude.Common.{◌≡◌, true, arith, Bool-cases, inl, inr}
use magnitude.Failure.{Detector, start, stop}

-- A detector that is started after a stop counts as running although its stop channel is closed,
-- and a further stop changes nothing.
pub restart_unstoppable :
    {F : Type 0} (d : Detector F)
    → ((start (stop d)).0.running ≡ true)
      × ((start (stop d)).0.closed ≡ true)
      × (stop (start (stop d)).0 ≡ (start (stop d)).0)
unfolding start stop
restart_unstoppable d = elim (Bool-cases d.closed) [
  | inl closed ↦ elim (Bool-cases d.running) [
    | inl running ↦ (ground arith, ground arith, ground arith)
    | inr idle ↦ (ground arith, ground arith, ground arith)
  ]
  | inr opened ↦ (ground arith, ground arith, ground arith)
]
