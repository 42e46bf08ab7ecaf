-- ===== src/Runtime/Executor.antt =====
-- src/xenopus/runtime/executor.py: tool calls with bounded retries. `attempt n` stands for the call of
-- the gateway in the n-th round, with the clock's time in it, and `pause d` for what the rest of the
-- system does to the state while the executor sleeps for `d`.
pub mod Attempts
pub mod Requests
mod Tests
use xenopus.Prelude.{
  ℕ, zero, suc, ◌+◌, Bool, true, false, ◌||◌, Option, none, some, List, [], ◌∷◌, ◌++◌, String,
  str_eq, Result, ok, err, any, if◌then◌else◌,
}
use xenopus.Prelude.Strip.{is_blank}
use xenopus.Runtime.Budgets.{RetryPolicy, backoff}
use xenopus.Tools.Contracts.{ToolResult}

-- PERMANENT_ERROR_CODES
abbrev pub permanent_error_codes : List String
permanent_error_codes =
    "unknown_tool" ∷ "tool_quarantined" ∷ "permission_denied" ∷ "risk_denied" ∷ "approval_required"
    ∷ "approval_invalid" ∷ "not_found" ∷ "tool_validation_error" ∷ []

unfoldable pub is_permanent : String → Bool
is_permanent code = any (λ c. str_eq c code) permanent_error_codes

-- The two early returns of the loop
unfoldable pub settles : {V : Type 0} → ToolResult V → Bool
unfolding is_permanent
settles result = result.is_ok || is_permanent result.error_code

-- The events of the journal, all with the tool and the correlation id of the call
pub data ToolEvent : Type 0 where
  tool_started : ℕ → ToolEvent
  tool_completed tool_failed : ℕ → String → ToolEvent

-- An observation of kind `tool_result`
pub record Observed (V : Type 0) : Type 0 where
  pub attempt : ℕ
  pub result : ToolResult V

-- What the executor has written, and the sleeps between the rounds
pub record Log (V : Type 0) : Type 0 where
  pub journal : List ToolEvent
  pub observations : List (Observed V)
  pub sleeps : List ℕ

abbrev pub outcome_event : {V : Type 0} → ℕ → ToolResult V → ToolEvent
outcome_event n result =
    if result.is_ok then tool_completed n result.error_code else tool_failed n result.error_code

-- What one round writes
abbrev pub round_log : {V : Type 0} → ℕ → ToolResult V → Log V
round_log n result = record {
  journal = tool_started n ∷ outcome_event n result ∷ [];
  observations = record { attempt = n; result = result } ∷ [];
  sleeps = [];
}

abbrev pub then_sleep : {V : Type 0} → Log V → ℕ → Log V → Log V
then_sleep first d rest = record {
  journal = first.journal ++ rest.journal;
  observations = first.observations ++ rest.observations;
  sleeps = d ∷ rest.sleeps;
}

pub data ExecutorError : Type 0 where
  empty_correlation_id : ExecutorError

module _ {V S : Type 0} (attempt : ℕ → S → ToolResult V × S) (pause : ℕ → S → S) where
  abbrev pub Execution : Type 0
  Execution = ToolResult V × Log V × S

  -- The loop, from round `n` on, with `more` rounds after it
  unfoldable pub run_rounds : RetryPolicy → ℕ → ℕ → S → Execution
  unfolding backoff
  run_rounds policy zero n s = let (result, s') = attempt n s in (result, round_log n result, s')
  run_rounds policy (suc more) n s =
      let (result, s') = attempt n s in
      let go_on : Execution =
        let (last, log, s'') = run_rounds policy more (suc n) (pause (backoff policy n) s') in
        (last, then_sleep (round_log n result) (backoff policy n) log, s'') in
      if settles result then (result, round_log n result, s') else go_on

  -- `_execute_with_retries`: no result when the policy allows no attempt, which its constructor
  -- refuses; the first event refuses an empty correlation id.
  unfoldable pub execute_with_retries :
      RetryPolicy → String → S → Result ExecutorError (Option Execution)
  unfolding run_rounds
  execute_with_retries policy correlation_id s = elim policy.max_attempts [
    | zero ↦ ok none
    | suc more ↦
        if is_blank correlation_id
        then err empty_correlation_id
        else ok (some (run_rounds policy more 1 s))
  ]

-- The row that `execute` adds to the reliability store: whether the last result is a success
abbrev pub reliability_rows :
    {V S : Type 0} → Result ExecutorError (Option (ToolResult V × Log V × S)) → List Bool
reliability_rows (ok (some (result, _, _))) = result.is_ok ∷ []
reliability_rows (ok none) = []
reliability_rows (err e) = []
