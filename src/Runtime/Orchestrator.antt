-- ===== src/Runtime/Orchestrator.antt =====
-- src/xenopus/runtime/orchestrator.py: the layers of a plan and their execution. `run k` stands for
-- what `_run_one` answers for the task `k`: a task is run once at most, so that this says all that the
-- agents, the pool and the clock do. Ratios are compared by products.
pub mod Layers
pub mod Runs
pub mod Dependencies
mod Tests
use xenopus.Prelude.{
  ℕ, zero, suc, ◌+◌, ◌-◌, ◌*◌, max, Bool, true, false, not, ◌&&◌, Option, none, some, List, [], ◌∷◌,
  ◌++◌, map, String, str_eq, Result, ok, err, length, is_empty, all, filter, ltb, leb, ◌==◌,
  if◌then◌else◌,
}
use xenopus.Prelude.Dict.{Dict, lookup, insert}
use xenopus.Runtime.Plan.{TaskNode, Plan, PlanError, contains, dependencies_of, topological_order}

-- The overhead of `estimate_parallel_cost` in units of one agent, and the benefit
unfoldable pub overhead : List ℕ → ℕ
overhead [] = 0
overhead (n ∷ sizes) = n + overhead sizes

unfoldable pub benefit : List ℕ → ℕ
benefit [] = 0
benefit (n ∷ sizes) = n - 1 + benefit sizes

pub data GateReason : Type 0 where
  empty_plan all_single ratio_exceeded benefit_dominates : GateReason

pub record CostGateDecision : Type 0 where
  pub parallel_allowed : Bool
  pub reason : GateReason

-- PARALLEL_MAX_BENEFIT_RATIO
abbrev max_benefit_ratio : ℕ
max_benefit_ratio = 10

-- `ParallelizationCostGate.evaluate`; without a benefit the ratio is 1e9, or 0 without an overhead.
abbrev ratio_exceeds : List ℕ → Bool
unfolding overhead benefit
ratio_exceeds sizes = ltb (max_benefit_ratio * benefit sizes) (overhead sizes)

unfoldable pub evaluate : List ℕ → CostGateDecision
unfolding ratio_exceeds
evaluate sizes =
    if is_empty sizes
    then record { parallel_allowed = true; reason = empty_plan }
    else if all (λ n. leb n 1) sizes
    then record { parallel_allowed = false; reason = all_single }
    else if ratio_exceeds sizes
    then record { parallel_allowed = false; reason = ratio_exceeded }
    else record { parallel_allowed = true; reason = benefit_dominates }

-- What is read or written here of an `AgentResult`
pub record Outcome : Type 0 where
  pub task_id : String
  pub status : String
  pub errors : List String

unfoldable pub is_completed : Outcome → Bool
is_completed r = str_eq r.status "COMPLETED"

-- `AgentResult.failed` for a task whose dependencies did not all complete
abbrev pub blocked_result : String → Outcome
blocked_result nid = record {
  task_id = nid;
  status = "FAILED";
  errors = "dependency failed or incomplete: upstream evidence missing" ∷ [];
}

pub record LayerReport : Type 0 where
  pub layer : ℕ
  pub results : List Outcome

pub data Overall : Type 0 where
  completed partial failed : Overall

-- `confidence` is the fraction of completed tasks, as its two numbers.
pub record OrchestrationReport : Type 0 where
  pub plan_id : String
  pub correlation_id : String
  pub overall : Overall
  pub layers : List LayerReport
  pub confidence : ℕ × ℕ

pub data OrchestrationError : Type 0 where
  plan_error : PlanError → OrchestrationError
  refused : GateReason → OrchestrationError
  key_error : OrchestrationError

-- `layers[index].append(nid)`, behind the loop that adds empty layers
unfoldable pub place_at : ℕ → String → List (List String) → List (List String)
place_at zero nid [] = (nid ∷ []) ∷ []
place_at zero nid (layer ∷ layers) = (layer ++ nid ∷ []) ∷ layers
place_at (suc n) nid [] = [] ∷ place_at n nid []
place_at (suc n) nid (layer ∷ layers) = layer ∷ place_at n nid layers

abbrev pub max_with : Option ℕ → Option ℕ → Option ℕ
max_with none m = none
max_with (some n) none = none
max_with (some n) (some m) = some (max n m)

-- The layer below the lowest of the dependencies; none for a KeyError
unfoldable pub index_below : List String → Dict ℕ → Option ℕ
index_below [] placed = some 0
index_below (d ∷ deps) placed = max_with (lookup d placed) (index_below deps placed)

abbrev pub layer_index : List String → Option ℕ → Option ℕ
layer_index deps none = none
layer_index deps (some n) = some (if is_empty deps then 0 else suc n)

module _ {J : Type 0} (nodes : Dict (TaskNode J)) where
  abbrev pub place_next : (ℕ → Option (List (List String))) → Option ℕ → Option (List (List String))
  place_next next none = none
  place_next next (some n) = next n

  -- The loop of `_dependency_layers`
  unfoldable pub group_each :
      List String → Dict ℕ → List (List String) → Option (List (List String))
  unfolding place_at index_below
  group_each [] placed layers = some layers
  group_each (nid ∷ order) placed layers =
      let deps : List String = dependencies_of (lookup nid nodes) in
      place_next (λ n. group_each order (insert nid n placed) (place_at n nid layers))
        (layer_index deps (index_below deps placed))

  abbrev pub or_key_error :
      Option (List (List String)) → Result OrchestrationError (List (List String))
  or_key_error none = err key_error
  or_key_error (some layers) = ok layers

  abbrev pub layers_in :
      Result PlanError (List String) → Result OrchestrationError (List (List String))
  unfolding group_each
  layers_in (err e) = err (plan_error e)
  layers_in (ok order) = or_key_error (group_each order [] [])

  unfoldable pub dependency_layers : Result OrchestrationError (List (List String))
  unfolding layers_in
  dependency_layers = layers_in (topological_order nodes)

  -- All dependencies of the task are completed.
  unfoldable pub is_ready : List String → String → Bool
  is_ready completed_tasks nid =
      all (λ d. contains d completed_tasks) (dependencies_of (lookup nid nodes))

  module _ (run : String → Outcome) where
    -- The results of a layer: those of the tasks that run, then the blocked ones
    unfoldable pub layer_results : List String → List String → List Outcome
    unfolding is_ready
    layer_results completed_tasks layer =
        map run (filter (λ nid. is_ready completed_tasks nid) layer)
        ++ map blocked_result (filter (λ nid. not (is_ready completed_tasks nid)) layer)

    -- `completed_tasks` after the layer
    unfoldable pub after_layer : List String → List String → List String
    unfolding is_ready is_completed
    after_layer completed_tasks layer =
        completed_tasks
        ++ filter (λ nid. is_completed (run nid))
            (filter (λ nid. is_ready completed_tasks nid) layer)

    -- The loop over the layers, from the `n`-th on
    unfoldable pub run_layers :
        ℕ → List (List String) → List String → List LayerReport × List String
    unfolding layer_results after_layer
    run_layers n [] completed_tasks = ([], completed_tasks)
    run_layers n (layer ∷ layers) completed_tasks =
        let (reports, done) = run_layers (suc n) layers (after_layer completed_tasks layer) in
        (record { layer = n; results = layer_results completed_tasks layer } ∷ reports, done)

-- The verdict at the end of `execute`
abbrev pub overall_of : ℕ → ℕ → Overall
overall_of done nodes = if done == nodes then completed else if leb 1 done then partial else failed

abbrev pub report_of :
    {J : Type 0} → Plan J → String → List LayerReport × List String → OrchestrationReport
report_of plan correlation_id (layers, done) = record {
  plan_id = plan.plan_id;
  correlation_id = correlation_id;
  overall = overall_of (length done) (length plan.nodes);
  layers = layers;
  confidence = (length done, length plan.nodes);
}

abbrev pub execute_layers :
    {J : Type 0}
    → (String → Outcome)
    → Plan J
    → String
    → Bool
    → Result OrchestrationError (List (List String))
    → Result OrchestrationError OrchestrationReport
unfolding run_layers evaluate
execute_layers run plan correlation_id force_sequential (err e) = err e
execute_layers run plan correlation_id force_sequential (ok layers) =
    let decision : CostGateDecision = evaluate (map (λ l. length l) layers) in
    if not force_sequential && not decision.parallel_allowed
    then err (refused decision.reason)
    else ok (report_of plan correlation_id (run_layers plan.nodes run 0 layers []))

unfoldable pub execute :
    {J : Type 0}
    → (String → Outcome)
    → Plan J
    → String
    → Bool
    → Result OrchestrationError OrchestrationReport
unfolding dependency_layers execute_layers
execute run plan correlation_id force_sequential =
    execute_layers run plan correlation_id force_sequential (dependency_layers plan.nodes)
