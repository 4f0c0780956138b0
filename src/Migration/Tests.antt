-- ===== src/Migration/Tests.antt =====
-- A ring of two nodes, and a target that refuses each batch twice.
use magnitude.Common.{
  ℕ, zero, suc, ◌≤◌, ◌<◌, ◌≡◌, ◌≢◌, ◌⊎◌, refl, ap, Bool, true, false, not, ◌&&◌, ◌||◌, String, none,
  some, List, [], ◌∷◌, ◌++◌, ◌==◌, nat_keyed, string_keyed, if◌then◌else◌, arith,
}
use magnitude.Common.Dict
use magnitude.Common.Keys.{has}
use magnitude.Cluster.Ring.{
  HashRing, new_ring, is_member, insert_sorted, sort, taken_by_other, add_vnode, add_vnodes,
  add_node, removal_panics, remove_node, get_node,
}
use magnitude.Cluster.Ring.Routing.{Change, join, run, Apart, run-IsLinked, new_ring-IsLinked}
use magnitude.Migration.{
  Config, MigrationPlan, new_worker, plan_migration, execute_plan, trigger_on_node_removal,
}
use magnitude.Migration.Delivery.{
  Target, batches_of, ids_of, IsPaged, Delivered, execute_plan_delivers,
}
use magnitude.Migration.Plans.{planned, plans_exact}

abbrev vnode_name : String → ℕ → String
vnode_name id i = id

abbrev sum32 : String → ℕ
sum32 s = if s == "a" then 10 else if s == "b" then 20 else 15

abbrev changes : List Change
changes = join "a" ∷ join "b" ∷ []

changes-Apart : Apart sum32 vnode_name (new_ring 1) changes
unfolding Apart new_ring add_node add_vnodes add_vnode taken_by_other sort insert_sorted is_member
    Dict.lookup Dict.insert
changes-Apart = ((λ i j l m e. omega arith), ((λ i j l m e. omega arith), tt))

abbrev ring : HashRing
ring = run sum32 vnode_name (new_ring 1) changes

abbrev dead_node : String
dead_node = "b"

abbrev cols : List String
cols = "items" ∷ "users" ∷ []

dead_node-named : dead_node ≢ ""
dead_node-named e = ground (arith, ap (λ s. s == "") e)

plans_exact_example :
    ((removal_panics ring dead_node ≡ true)
      × (trigger_on_node_removal sum32 (some ring) dead_node cols ≡ none))
    ⊎ ((plans : List MigrationPlan) × (removal_panics ring dead_node ≡ false)
        × (trigger_on_node_removal sum32 (some ring) dead_node cols
            ≡ some (some (remove_node ring dead_node), plans))
        × ((col to : String)
            → planned col dead_node to plans ≡ (
                has col cols
                && (get_node sum32 ring col == dead_node
                    && (get_node sum32 (remove_node ring dead_node) col == to && not (to == "")))))
        × ((col to : String)
            → (planned col dead_node to plans && (to == dead_node || not (is_member ring to)))
              ≡ false))
plans_exact_example =
    plans_exact sum32 ring dead_node cols
      (run-IsLinked sum32 vnode_name (new_ring 1) changes changes-Apart
        (new_ring-IsLinked sum32 vnode_name 1))
      dead_node-named

-- What is received, and the refusals to come.
abbrev stubborn : ℕ × List ℕ → List ℕ → (ℕ × List ℕ) × Bool
stubborn (zero, got) ids = ((2, got ++ ids), true)
stubborn (suc n, got) ids = ((n, got), false)

stubborn_accepts :
    (t : ℕ × List ℕ) (ids : List ℕ)
    → (stubborn t ids).1 ≡ true
    → ((stubborn t ids).0.1 ≡ t.1 ++ ids) × ((stubborn t ids).0.0 ≤ 2)
stubborn_accepts (zero, got) ids h = (refl, omega arith)
stubborn_accepts (suc n, got) ids h = cc

stubborn_refuses :
    (t : ℕ × List ℕ) (ids : List ℕ)
    → (stubborn t ids).1 ≡ false
    → ((stubborn t ids).0.1 ≡ t.1) × ((stubborn t ids).0.0 < t.0)
stubborn_refuses (zero, got) ids h = cc
stubborn_refuses (suc n, got) ids h = (refl, omega arith)

abbrev target : Target (ℕ × List ℕ) 2
target = record {
  transfer = stubborn;
  received = λ t. t.1;
  patience = λ t. t.0;
  accepts = stubborn_accepts;
  refuses = stubborn_refuses;
}

abbrev config : Config
config = new_worker (record { batch_size = 2; parallelism = 0; max_retries = 0 })

abbrev plan : MigrationPlan
plan = plan_migration config "items" "b" "a" 5

execute_plan_delivers_example :
    Delivered target
      (1, [])
      0
      (ids_of ((1 ∷ 2 ∷ []) ∷ (3 ∷ 4 ∷ []) ∷ (5 ∷ []) ∷ []))
      (execute_plan stubborn config plan
        (1, [])
        (batches_of ((1 ∷ 2 ∷ []) ∷ (3 ∷ 4 ∷ []) ∷ (5 ∷ []) ∷ [])))
unfolding IsPaged new_worker plan_migration
execute_plan_delivers_example =
    execute_plan_delivers target config plan (1, []) ((1 ∷ 2 ∷ []) ∷ (3 ∷ 4 ∷ []) ∷ (5 ∷ []) ∷ [])
      (omega arith) (omega arith)
      (omega arith, (omega arith, (omega arith, (omega arith, omega arith))))
