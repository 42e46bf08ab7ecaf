-- ===== src/Runtime/Executor/Tests.antt =====
-- Retried calls of a tool that answers at the third time it is asked, and the theorems at them. The
-- state counts the calls.
use xenopus.Prelude.{
  ℕ, suc, ◌+◌, ◌*◌, ◌^◌, ◌≡◌, ◌≤◌, refl, arith, some, [], ok, leb, length, if◌then◌else◌,
}
use xenopus.Tools.Contracts.{ToolResult, success, failure}
use xenopus.Runtime.Budgets.{RetryPolicy}
use xenopus.Runtime.Executor.{Execution, execute_with_retries}
use xenopus.Runtime.Executor.Attempts.{Ends, execute-Ends, execute_bounds, sum}

abbrev attempt : ℕ → ℕ → ToolResult ℕ × ℕ
attempt n calls = (if leb calls 1 then failure "tool_timeout" else success [], suc calls)

abbrev pause : ℕ → ℕ → ℕ
pause d calls = calls

abbrev policy : RetryPolicy
policy = record { max_attempts = 5; backoff_base = 2 }

execute-Ends_example :
    (run : Execution attempt pause) × (execute_with_retries attempt pause policy "c" 0
      ≡ ok (some run))
    × Ends attempt pause policy 4 1 0 run
execute-Ends_example = execute-Ends attempt pause policy "c" 0 (omega arith) refl

execute_bounds_example :
    (run : Execution attempt pause) × (k : ℕ) × (execute_with_retries attempt pause policy "c" 0
      ≡ ok (some run))
    × (suc k ≤ 5)
    × (length run.1.observations ≡ suc k)
    × (length run.1.journal ≡ 2 * suc k)
    × (sum run.1.sleeps + 2 ≡ 2 * 2 ^ k)
execute_bounds_example = execute_bounds attempt pause policy "c" 0 (omega arith) refl
