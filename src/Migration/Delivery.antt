-- ===== src/Migration/Delivery.antt =====
-- `ExecutePlan` of internal/migration/migration.go: what reaches the target.
use magnitude.Common.{
  ℕ, zero, suc, ◌+◌, ◌≤◌, ◌<◌, ◌≡◌, refl, sym, ap, subst, ◌∙◌, Bool, true, false, List, [], ◌∷◌,
  ◌++◌, length, length-append, ltb, ◌==◌, nat_keyed, if◌then◌else◌, arith, Bool-cases, inl, inr,
}
use mathlib.Core.List.{append_assoc, append-nil}
use magnitude.Migration.{
  Config, MigrationPlan, Fetch, batch, completed, Outcome, or_default, attempts, execute_batches,
  execute_plan,
}

-- A target that takes a batch whole or not at all, and whose failures end: it has a patience of
-- failures to come, at most `most` after it took a batch.
pub record Target (T : Type 0) (most : ℕ) : Type 0 where
  pub transfer : T → List ℕ → T × Bool
  pub received : T → List ℕ
  pub patience : T → ℕ
  pub accepts :
      (t : T) (ids : List ℕ)
      → (transfer t ids).1 ≡ true
      → (received ((transfer t ids).0) ≡ received t ++ ids) × (patience ((transfer t ids).0) ≤ most)
  pub refuses :
      (t : T) (ids : List ℕ)
      → (transfer t ids).1 ≡ false
      → (received ((transfer t ids).0) ≡ received t) × (patience ((transfer t ids).0) < patience t)

abbrev pub batches_of : List (List ℕ) → List Fetch
batches_of [] = []
batches_of (b ∷ bs) = batch b ∷ batches_of bs

abbrev pub ids_of : List (List ℕ) → List ℕ
ids_of [] = []
ids_of (b ∷ bs) = b ++ ids_of bs

-- No batch is empty, and all but the last are full.
unfoldable pub IsPaged : ℕ → List (List ℕ) → Type 0
IsPaged size [] = Unit
IsPaged size (b ∷ []) = 0 < length b
IsPaged size (b ∷ c ∷ bs) = (0 < length b) × ((size ≤ length b) × IsPaged size (c ∷ bs))

module _ {T : Type 0} {most : ℕ} (target : Target T most) where
  attempts_lem :
      (left : ℕ) (t : T) (ids : List ℕ)
      → target.patience t < left
      → ((attempts target.transfer left t ids).1 ≡ true)
        × ((target.received ((attempts target.transfer left t ids).0) ≡ target.received t ++ ids)
            × (target.patience ((attempts target.transfer left t ids).0) ≤ most))
  unfolding attempts
  attempts_lem zero t ids h = absurd (omega (arith, h))
  attempts_lem (suc left) t ids h = elim (Bool-cases ((target.transfer t ids).1)) [
    | inl taken ↦ rw taken (refl, target.accepts t ids taken)
    | inr refused ↦
        let (same, less) = target.refuses t ids refused in
        let next = (target.transfer t ids).0 in
        let (ok, (got, calm)) = attempts_lem left next ids (omega (arith, h, less)) in
        rw refused (ok, (got ∙ ap (λ r. r ++ ids) same, calm))
  ]

  one_batch :
      (config : Config) (plan : MigrationPlan) (size batch_num sent : ℕ) (t : T) (progress : List ℕ)
      (ids : List ℕ) (rest : List Fetch)
      → (attempts target.transfer (config.max_retries + 1) t ids).1 ≡ true
      → (length ids == 0) ≡ false
      → execute_batches target.transfer config plan size batch_num sent t progress
          (batch ids ∷ rest)
        ≡ (let next = (attempts target.transfer (config.max_retries + 1) t ids).0 in
            let total = sent + length ids in
            let reported = if ltb 0 plan.total_vectors then progress ++ total ∷ [] else progress in
            if ltb (length ids) size
            then record { target = next; sent = total; progress = reported; verdict = completed }
            else execute_batches target.transfer config plan size
                (batch_num + 1)
                total
                next
                reported
                rest)
  unfolding execute_batches
  one_batch config plan size batch_num sent t progress ids rest accepted some_ids =
      rw (execute_batches, some_ids, accepted) refl

  -- A run that is completed, after these ids on top of what the target had.
  pub record Delivered (t : T) (sent : ℕ) (ids : List ℕ) (o : Outcome T) : Type 0 where
    pub verdict : o.verdict ≡ completed
    pub received : target.received o.target ≡ target.received t ++ ids
    pub sent_all : o.sent ≡ sent + length ids

  batches_lem :
      (config : Config) (plan : MigrationPlan) (size batch_num sent : ℕ) (t : T) (progress : List ℕ)
      (bs : List (List ℕ))
      → most ≤ config.max_retries
      → target.patience t ≤ most
      → IsPaged size bs
      → Delivered t sent (ids_of bs) (
          execute_batches target.transfer config plan size batch_num sent t progress
            (batches_of bs))
  unfolding execute_batches IsPaged
  batches_lem config plan size batch_num sent t progress [] enough calm paged = record {
    verdict = refl;
    received = sym (append-nil (target.received t));
    sent_all = omega arith;
  }
  batches_lem config plan size batch_num sent t progress (b ∷ []) enough calm paged =
      let (accepted, (got, later)) =
        attempts_lem (config.max_retries + 1) t b (omega (arith, enough, calm)) in
      let whole = got ∙ ap (λ l. target.received t ++ l) (sym (append-nil b)) in
      let counted = ap (λ l. sent + length l) (sym (append-nil b)) in
      subst (λ o. Delivered t sent (b ++ []) o)
        (sym (
          one_batch config plan size batch_num sent t progress b [] accepted
            (ground (arith, paged))))
        (elim (Bool-cases (ltb (length b) size)) [
          | inl short ↦ rw short (record { verdict = refl; received = whole; sent_all = counted })
          | inr full ↦ rw full (record { verdict = refl; received = whole; sent_all = counted })
        ])
  batches_lem config plan size batch_num sent t progress (b ∷ c ∷ bs) enough calm paged =
      let (accepted, (got, later)) =
        attempts_lem (config.max_retries + 1) t b (omega (arith, enough, calm)) in
      let next = (attempts target.transfer (config.max_retries + 1) t b).0 in
      let total = sent + length b in
      let reported = if ltb 0 plan.total_vectors then progress ++ total ∷ [] else progress in
      let full : ltb (length b) size ≡ false = ground (arith, paged.1.0) in
      let rest =
        batches_lem config plan size (batch_num + 1) total next reported (c ∷ bs) enough later
          paged.1.1 in
      subst (λ o. Delivered t sent (b ++ ids_of (c ∷ bs)) o)
        (sym (
          one_batch config plan size batch_num sent t progress b (batches_of (c ∷ bs)) accepted
            (ground (arith, paged.0))))
        (rw full (record {
          verdict = rest.verdict;
          received =
              rest.received
              ∙ ap (λ l. l ++ ids_of (c ∷ bs)) got
              ∙ append_assoc (target.received t) b (ids_of (c ∷ bs));
          sent_all = omega (arith, rest.sent_all, length-append b (ids_of (c ∷ bs)));
        }))

  -- Where the source gives full batches but for the last, none of them empty, and the target refuses
  -- a batch at most as often as the worker retries, ExecutePlan completes, and the target has received
  -- every id once and in order.
  pub execute_plan_delivers :
      (config : Config) (plan : MigrationPlan) (t : T) (bs : List (List ℕ))
      → most ≤ config.max_retries
      → target.patience t ≤ most
      → IsPaged (or_default plan.batch_size config.batch_size) bs
      → Delivered t 0 (ids_of bs) (execute_plan target.transfer config plan t (batches_of bs))
  unfolding execute_plan
  execute_plan_delivers config plan t bs enough calm paged =
      batches_lem config plan (or_default plan.batch_size config.batch_size) 0 0 t [] bs enough calm
        paged

-- After a batch that is short and is accepted, the rest of the source is not asked for, whatever it has.
short_batch_ends :
    {T : Type 0} (transfer : T → List ℕ → T × Bool) (config : Config) (plan : MigrationPlan) (t : T)
    (ids : List ℕ) (rest : List Fetch)
    → 0 < length ids
    → length ids < or_default plan.batch_size config.batch_size
    → ((attempts transfer (config.max_retries + 1) t ids).1) ≡ true
    → ((execute_plan transfer config plan t (batch ids ∷ rest)).verdict ≡ completed)
      × ((execute_plan transfer config plan t (batch ids ∷ rest)).sent ≡ length ids)
unfolding execute_plan execute_batches
short_batch_ends transfer config plan t ids rest some_ids short accepted =
    let nonempty : (length ids == 0) ≡ false = ground (arith, some_ids) in
    let small : ltb (length ids) (or_default plan.batch_size config.batch_size) ≡ true =
      ground (arith, short) in
    (
      rw (execute_batches, nonempty, accepted, small) refl,
      rw (execute_batches, nonempty, accepted, small) (omega arith),
    )
