-- ===== src/Migration.antt =====
-- internal/migration/migration.go and internal/migration/trigger.go: plans to move collections and the
-- worker that executes them. An `int` of the configuration that is not positive is 0. A source of
-- batches is the list of what its calls give, empty batches after it; `transfer` is the call-back on
-- the state of the target, with `false` for an error. Progress is the number of vectors sent so far.
pub mod Delivery
pub mod Plans
mod Tests
use magnitude.Common.{
  ℕ, zero, suc, ◌+◌, ◌-◌, ◌/◌, Bool, true, false, not, ◌&&◌, ◌||◌, String, Option, none, some, List,
  [], ◌∷◌, ◌++◌, length, ltb, leb, ◌==◌, nat_keyed, string_keyed, if◌then◌else◌,
}
use magnitude.Common.Dict
use magnitude.Common.Dict.{Dict}
use magnitude.Cluster.Ring.{HashRing, flag, removal_panics, remove_node, get_node}

pub record Config : Type 0 where
  pub batch_size : ℕ
  pub parallelism : ℕ
  pub max_retries : ℕ

pub record MigrationPlan : Type 0 where
  pub collection_id : String
  pub source_node : String
  pub target_node : String
  pub total_vectors : ℕ
  pub batch_count : ℕ
  pub batch_size : ℕ

abbrev pub or_default : ℕ → ℕ → ℕ
or_default n default = if leb n 0 then default else n

unfoldable new_planner : Config → Config
new_planner cfg = record cfg {
  batch_size = or_default cfg.batch_size 1000;
  parallelism = or_default cfg.parallelism 4;
}

unfoldable pub new_worker : Config → Config
new_worker cfg = record {
  batch_size = or_default cfg.batch_size 1000;
  parallelism = or_default cfg.parallelism 4;
  max_retries = or_default cfg.max_retries 3;
}

unfoldable pub plan_migration : Config → String → String → String → ℕ → MigrationPlan
plan_migration config collection_id source_node target_node total = record {
  collection_id = collection_id;
  source_node = source_node;
  target_node = target_node;
  total_vectors = total;
  batch_count =
      if ltb 0 total && ltb 0 config.batch_size
      then (total + config.batch_size - 1) / config.batch_size
      else 0;
  batch_size = config.batch_size;
}

-- What a call of the source gives.
pub data Fetch : Type 0 where
  failed : Fetch
  batch : List ℕ → Fetch

pub data Verdict : Type 0 where
  completed : Verdict
  fetch_failed batch_failed : ℕ → Verdict

pub record Outcome (T : Type 0) : Type 0 where
  pub target : T
  pub sent : ℕ
  pub progress : List ℕ
  pub verdict : Verdict

module _ {T : Type 0} (transfer : T → List ℕ → T × Bool) where
  -- The loop over the attempts, of which so many are left.
  unfoldable pub attempts : ℕ → T → List ℕ → T × Bool
  attempts zero target ids = (target, false)
  attempts (suc left) target ids =
      let (next, accepted) = transfer target ids in
      let retried = attempts left next ids in if accepted then (next, true) else retried

  -- The loop of `ExecutePlan`.
  unfoldable pub execute_batches :
      Config → MigrationPlan → ℕ → ℕ → ℕ → T → List ℕ → List Fetch → Outcome T
  unfolding attempts
  execute_batches config plan size batch_num sent target progress [] = record {
    target = target;
    sent = sent;
    progress = progress;
    verdict = completed;
  }
  execute_batches config plan size batch_num sent target progress (failed ∷ rest) = record {
    target = target;
    sent = sent;
    progress = progress;
    verdict = fetch_failed batch_num;
  }
  execute_batches config plan size batch_num sent target progress (batch ids ∷ rest) =
      let (next, accepted) = attempts (config.max_retries + 1) target ids in
      let total = sent + length ids in
      let reported = if ltb 0 plan.total_vectors then progress ++ total ∷ [] else progress in
      let onward = execute_batches config plan size (batch_num + 1) total next reported rest in
      if length ids == 0
      then record { target = target; sent = sent; progress = progress; verdict = completed }
      else if not accepted
      then record {
        target = next;
        sent = sent;
        progress = progress;
        verdict = batch_failed batch_num;
      }
      else if ltb (length ids) size
      then record { target = next; sent = total; progress = reported; verdict = completed }
      else onward

  unfoldable pub execute_plan : Config → MigrationPlan → T → List Fetch → Outcome T
  unfolding execute_batches
  execute_plan config plan target source =
      execute_batches config plan (or_default plan.batch_size config.batch_size) 0 0 target []
        source

module _ (sum32 : String → ℕ) where
  -- The collections whose primary is the dead node, as a map.
  unfoldable pub owned_by_dead :
      HashRing → String → List String → Dict String Bool → Dict String Bool
  owned_by_dead ring dead [] owned = owned
  owned_by_dead ring dead (col ∷ cols) owned =
      owned_by_dead ring dead cols
        (if get_node sum32 ring col == dead then Dict.insert col true owned else owned)

  unfoldable pub removal_plans :
      HashRing → String → Dict String Bool → List String → List MigrationPlan
  removal_plans ring dead owned [] = []
  removal_plans ring dead owned (col ∷ cols) =
      let rest = removal_plans ring dead owned cols in
      let primary = get_node sum32 ring col in
      if flag (Dict.lookup col owned)
      then if primary == ""
        then rest
        else (record {
          collection_id = col;
          source_node = dead;
          target_node = primary;
          total_vectors = 0;
          batch_count = 0;
          batch_size = 0;
        })
          ∷ rest
      else rest

  -- The ring after the call and the plans, or nothing where RemoveNode panics. The replicas of the dead
  -- node are only logged.
  unfoldable pub trigger_on_node_removal :
      Option HashRing → String → List String → Option (Option HashRing × List MigrationPlan)
  unfolding owned_by_dead removal_plans
  trigger_on_node_removal none dead cols = some (none, [])
  trigger_on_node_removal (some ring) dead cols =
      if dead == ""
      then some (some ring, [])
      else if removal_panics ring dead
      then none
      else some (
        some (remove_node ring dead),
        removal_plans (remove_node ring dead) dead (owned_by_dead ring dead cols []) cols,
      )
