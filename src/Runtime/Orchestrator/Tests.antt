-- ===== src/Runtime/Orchestrator/Tests.antt =====
-- The execution of a plan of two tasks, and the theorems at it.
use xenopus.Prelude.{◌≡◌, refl, true, none, List, [], ◌∷◌, String, str_eq, ok, if◌then◌else◌}
use xenopus.Prelude.Dict.{has, insert, lookup}
use xenopus.Prelude.Sort.{sort_by}
use xenopus.Prelude.Text.{text_le}
use xenopus.Runtime.Goals
use xenopus.Runtime.Goals.{GoalManager}
use xenopus.Runtime.Plan.{TaskNode, Plan, queued, contains, topological_order}
use xenopus.Runtime.Orchestrator.{Outcome, OrchestrationReport, failed, blocked_result, execute}
use xenopus.Runtime.Orchestrator.Dependencies.{Supported, execute-Supported}

abbrev task : String → List String → TaskNode String
task id dependencies = record {
  id = id;
  summary = "";
  dependencies = dependencies;
  agent_type = "default";
  status = queued;
  required_tools = [];
  forbidden_tools = [];
  budget = none;
  retry_policy = none;
  timeout = none;
  output_schema = none;
}

abbrev goals : GoalManager Unit
goals =
    (
      "goal-1",
      record {
        id = "goal-1";
        objective = "ship";
        constraints = [];
        non_goals = [];
        priority = Goals.normal;
        success_criteria = "done" ∷ [];
        risk_tolerance = "low";
        budget = tt;
        created_at = 0;
        status = Goals.active;
      },
    )
    ∷ []

abbrev plan : Plan String
plan = record {
  goal_id = "goal-1";
  nodes = ("test", task "test" ("build" ∷ [])) ∷ ("build", task "build" []) ∷ [];
  plan_id = "plan-1";
}

-- The build fails.
abbrev run : String → Outcome
run k = record {
  task_id = k;
  status = if str_eq k "build" then "FAILED" else "COMPLETED";
  errors = [];
}

-- The test waits for the build in vain.
abbrev report : OrchestrationReport
report = record {
  plan_id = "plan-1";
  correlation_id = "c";
  overall = failed;
  layers =
      record { layer = 0; results = run "build" ∷ [] }
      ∷ record { layer = 1; results = blocked_result "test" ∷ [] }
      ∷ [];
  confidence = (0, 2);
}

program : Unit {0}
unfolding execute topological_order sort_by text_le contains lookup insert has
program = tt

executed : execute run plan "c" true ≡ ok report
unfolding program
executed = refl

execute-Supported_example : Supported plan.nodes run [] report.layers
execute-Supported_example = execute-Supported plan run "c" true report (λ k. refl) executed
