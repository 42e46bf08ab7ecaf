-- ===== src/Runtime/Plan/Tests.antt =====
-- A plan of three tasks, and the theorems at it.
use xenopus.Prelude.{◌≡◌, ◌≢◌, refl, none, List, [], ◌∷◌, String, ok}
use xenopus.Prelude.Dict.{Dict, has, insert, lookup}
use xenopus.Prelude.Sort.{sort_by}
use xenopus.Prelude.Text.{text_le}
use xenopus.Runtime.Goals
use xenopus.Runtime.Goals.{Goal, GoalManager}
use xenopus.Runtime.Plan.Counts.{occ}
use xenopus.Runtime.Plan.Dependents.{is_there}
use xenopus.Runtime.Plan.Orders.{Follows}
use xenopus.Runtime.Plan.Creation.{create-Follows}
use xenopus.Runtime.Plan.Walks.{out_of_fuel}
use xenopus.Runtime.Plan.Searches.{find_cycle-ends}
use xenopus.Runtime.Plan.{
  TaskNode, Plan, queued, create, contains, find_cycle, validate, topological_order,
}

abbrev task : String → List String → TaskNode String
task id dependencies = record {
  id = id;
  summary = "";
  dependencies = dependencies;
  agent_type = "default";
  status = queued;
  required_tools = [];
  forbidden_tools = [];
  budget = none;
  retry_policy = none;
  timeout = none;
  output_schema = none;
}

abbrev tasks : List (TaskNode String)
tasks = task "test" ("build" ∷ "fetch" ∷ []) ∷ task "build" ("fetch" ∷ []) ∷ task "fetch" [] ∷ []

abbrev nodes : Dict (TaskNode String)
nodes =
    ("test", task "test" ("build" ∷ "fetch" ∷ []))
    ∷ ("build", task "build" ("fetch" ∷ []))
    ∷ ("fetch", task "fetch" [])
    ∷ []

abbrev goals : GoalManager Unit
goals =
    (
      "goal-1",
      record {
        id = "goal-1";
        objective = "ship";
        constraints = [];
        non_goals = [];
        priority = Goals.normal;
        success_criteria = "done" ∷ [];
        risk_tolerance = "low";
        budget = tt;
        created_at = 0;
        status = Goals.active;
      },
    )
    ∷ []

abbrev plan : Plan String
plan = record { goal_id = "goal-1"; nodes = nodes; plan_id = "plan-1" }

abbrev looped : Dict (TaskNode String)
looped = ("a", task "a" ("b" ∷ [])) ∷ ("b", task "b" ("a" ∷ [])) ∷ []

program : Unit {0}
unfolding create Goals.require_active has insert sort_by text_le contains lookup validate
    topological_order
program = tt

create-Follows_example :
    (order : List String) × (topological_order nodes ≡ ok order)
    × Follows nodes [] order
    × ((k : String) → occ k order ≡ is_there (has k nodes))
unfolding program
create-Follows_example = create-Follows goals "goal-1" "plan-1" tasks plan refl

find_cycle-ends_example : find_cycle looped ≢ out_of_fuel
find_cycle-ends_example = find_cycle-ends looped

fetch_first : topological_order nodes ≡ ok ("fetch" ∷ "build" ∷ "test" ∷ [])
unfolding program
fetch_first = refl
