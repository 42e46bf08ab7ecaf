-- ===== src/Runtime/Goals/Tests.antt =====
-- The manager with one goal.
use xenopus.Prelude.{◌≡◌, refl, some, List, [], ◌∷◌}
use xenopus.Prelude.Dict.{lookup}
use xenopus.Runtime.Goals
use xenopus.Runtime.Goals.{Goal, GoalDraft, GoalManager, normal, achieved, active}
use xenopus.Runtime.Goals.Lifecycle.{
  Call, create, activate, achieve, abandon, perform, perform_all, Validated,
}

abbrev wish : GoalDraft (Unit {0})
wish = record {
  objective = "ship";
  constraints = [];
  non_goals = [];
  priority = normal;
  success_criteria = "tests pass" ∷ [];
  risk_tolerance = "low";
  budget = tt;
}

abbrev done : Goal (Unit {0})
done = record {
  id = "goal-1";
  objective = "ship";
  constraints = [];
  non_goals = [];
  priority = normal;
  success_criteria = "tests pass" ∷ [];
  risk_tolerance = "low";
  budget = tt;
  created_at = 5;
  status = achieved;
}

abbrev manager : GoalManager (Unit {0})
manager = ("goal-1", done) ∷ []

abbrev tries : List (Call (Unit {0}))
tries = create "goal-2" 6 wish ∷ activate "goal-1" ∷ abandon "goal-1" ∷ achieve "goal-1" ∷ []

run_achieves :
    perform_all (create "goal-1" 5 wish ∷ activate "goal-1" ∷ achieve "goal-1" ∷ []) [] ≡ manager
unfolding perform_all perform Goals.create Goals.activate Goals.achieve
run_achieves = refl

found : lookup "goal-1" manager ≡ some done
unfolding lookup
found = refl

empty_valid : Validated {B = Unit {0}} []
unfolding lookup
empty_valid k g h = cc
