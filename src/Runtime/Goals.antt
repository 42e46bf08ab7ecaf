-- ===== src/Runtime/Goals.antt =====
-- src/xenopus/runtime/goal.py: goals and their manager. `B` is the type of the budget, which a goal
-- carries and the manager does not read; `uuid4` and the clock give arguments of `create`.
pub mod Lifecycle
mod Tests
use xenopus.Prelude.{
  ℕ, Bool, true, false, Option, none, some, List, [], ◌∷◌, String, Result, ok, err, is_empty,
  if◌then◌else◌,
}
use xenopus.Prelude.Dict.{Dict, lookup, insert, empty}
use xenopus.Prelude.Strip.{strip, is_blank}

pub data GoalPriority : Type 0 where
  critical high normal low background : GoalPriority

pub data GoalStatus : Type 0 where
  draft active achieved abandoned : GoalStatus

pub record Goal (B : Type 0) : Type 0 where
  pub id : String
  pub objective : String
  pub constraints : List String
  pub non_goals : List String
  pub priority : GoalPriority
  pub success_criteria : List String
  pub risk_tolerance : String
  pub budget : B
  pub created_at : ℕ
  pub status : GoalStatus

pub record GoalDraft (B : Type 0) : Type 0 where
  pub objective : String
  pub constraints : List String
  pub non_goals : List String
  pub priority : GoalPriority
  pub success_criteria : List String
  pub risk_tolerance : String
  pub budget : B

pub data GoalError : Type 0 where
  empty_objective no_success_criteria unknown_goal : GoalError
  not_draft not_active : GoalStatus → GoalError
  is_achieved : GoalError

-- `GoalManager`: its dict of goals
abbrev pub GoalManager : Type 0 → Type 0
GoalManager B = Dict (Goal B)

-- The tests of `activate`, `achieve`, `abandon` and `require_active` on the status of the goal
abbrev pub must_be_draft : GoalStatus → Option GoalError
must_be_draft draft = none
must_be_draft s = some (not_draft s)

abbrev pub must_be_active : GoalStatus → Option GoalError
must_be_active active = none
must_be_active s = some (not_active s)

abbrev pub must_not_be_achieved : GoalStatus → Option GoalError
must_not_be_achieved achieved = some is_achieved
must_not_be_achieved s = none

module _ {B : Type 0} where
  unfoldable pub new_goal : String → ℕ → GoalDraft B → Goal B
  unfolding strip
  new_goal id now d = record {
    id = id;
    objective = strip d.objective;
    constraints = d.constraints;
    non_goals = d.non_goals;
    priority = d.priority;
    success_criteria = d.success_criteria;
    risk_tolerance = d.risk_tolerance;
    budget = d.budget;
    created_at = now;
    status = draft;
  }

  unfoldable pub create :
      String → ℕ → GoalDraft B → GoalManager B → Result GoalError (Goal B) × GoalManager B
  unfolding insert new_goal strip
  create id now d manager =
      if is_blank (strip d.objective)
      then (err empty_objective, manager)
      else if is_empty d.success_criteria
      then (err no_success_criteria, manager)
      else (ok (new_goal id now d), insert id (new_goal id now d) manager)

  abbrev pub or_unknown : Option (Goal B) → Result GoalError (Goal B)
  or_unknown none = err unknown_goal
  or_unknown (some goal) = ok goal

  -- `_require`, and `get`
  unfoldable pub require : String → GoalManager B → Result GoalError (Goal B)
  unfolding lookup
  require goal_id manager = or_unknown (lookup goal_id manager)

  unfoldable pub replace_status : Goal B → GoalStatus → Goal B
  replace_status goal status = record goal { status = status }

  -- The store of the goal with its new status, under the id of the call
  unfoldable pub store :
      String → GoalStatus → Goal B → GoalManager B → Result GoalError (Goal B) × GoalManager B
  unfolding insert replace_status
  store goal_id status goal manager =
      let updated : Goal B = replace_status goal status in
      (ok updated, insert goal_id updated manager)

  abbrev pub guarded :
      Option GoalError
      → Result GoalError (Goal B) × GoalManager B
      → GoalManager B
      → Result GoalError (Goal B) × GoalManager B
  guarded none done manager = done
  guarded (some e) done manager = (err e, manager)

  abbrev pub move_to :
      Result GoalError (Goal B)
      → (GoalStatus → Option GoalError)
      → String
      → GoalStatus
      → GoalManager B
      → Result GoalError (Goal B) × GoalManager B
  move_to (err e) test goal_id status manager = (err e, manager)
  move_to (ok goal) test goal_id status manager =
      guarded (test goal.status) (store goal_id status goal manager) manager

  unfoldable pub activate : String → GoalManager B → Result GoalError (Goal B) × GoalManager B
  unfolding require store
  activate goal_id manager = move_to (require goal_id manager) must_be_draft goal_id active manager

  unfoldable pub achieve : String → GoalManager B → Result GoalError (Goal B) × GoalManager B
  unfolding require store
  achieve goal_id manager =
      move_to (require goal_id manager) must_be_active goal_id achieved manager

  unfoldable pub abandon : String → GoalManager B → Result GoalError (Goal B) × GoalManager B
  unfolding require store
  abandon goal_id manager =
      move_to (require goal_id manager) must_not_be_achieved goal_id abandoned manager

  abbrev active_only : Result GoalError (Goal B) → Result GoalError (Goal B)
  active_only (err e) = err e
  active_only (ok goal) = elim (must_be_active goal.status) [ none ↦ ok goal | some e ↦ err e ]

  unfoldable pub require_active : String → GoalManager B → Result GoalError (Goal B)
  unfolding require
  require_active goal_id manager = active_only (require goal_id manager)
