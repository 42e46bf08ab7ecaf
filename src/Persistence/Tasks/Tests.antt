-- ===== src/Persistence/Tasks/Tests.antt =====
-- Runs of the task store, and the theorems at small inputs.
use xenopus.Prelude.{ℕ, zero, suc, ◌≡◌, refl, false, none, some, List, [], ◌∷◌, String, ok, All}
use xenopus.Prelude.Dict.{text_ne}
use xenopus.Prelude.Decimal.{padded}
use xenopus.Persistence.Tasks.{
  TaskState, running, failed, completed, TaskRecord, TaskStore, create, is_live, find_row,
  newest_first, transition, retry, cancel_all,
}
use xenopus.Persistence.Tasks.Table.{Distinct}
use xenopus.Persistence.Tasks.Sweeps.{cancel_all-none_listed}

abbrev task : String → TaskState → ℕ → TaskRecord
task id state attempt = record {
  task_id = id;
  title = "t";
  goal_ref = none;
  plan_ref = none;
  state = state;
  correlation_id = "c";
  attempt = attempt;
  max_attempts = 3;
  created_at = 0;
  updated_at = 0;
}

abbrev store : TaskStore
store = record {
  rows = task "a" failed 2 ∷ task "b" running 1 ∷ task "d" failed 3 ∷ [];
  journal = some [];
}

program : Unit {0}
unfolding transition retry cancel_all create find_row newest_first
program = tt

store-Distinct : Distinct store.rows
store-Distinct =
    ((text_ne "b" "a" refl, (text_ne "d" "a" refl, tt)), ((text_ne "d" "b" refl, tt), (tt, tt)))

-- A live task behind a hundred finished ones.
abbrev finished : ℕ → List TaskRecord
finished zero = []
finished (suc n) = (record (task (padded 3 n) completed 1) { updated_at = 1 }) ∷ finished n

finished-dead : (n : ℕ) → All (λ r. is_live r.state ≡ false) (finished n)
finished-dead zero = tt
finished-dead (suc n) = (refl, finished-dead n)

abbrev crowded : TaskStore
crowded = record { rows = task "b" running 1 ∷ finished 100; journal = none }

cancel_all-none_listed_example : cancel_all 9 crowded ≡ (ok [], crowded)
unfolding newest_first
cancel_all-none_listed_example = cancel_all-none_listed 9 crowded (finished-dead 100)
