-- ===== src/Runtime/Executor/Requests.antt =====
-- Calls that wait for an approval: the gateway stands for the attempts of the executor.
use xenopus.Prelude.{ℕ, ◌≡◌, ◌≢◌, ◌≤◌, refl, true, false, none, some, String, ok}
use xenopus.Prelude.Dict.{Dict}
use xenopus.Prelude.Strip.{is_blank}
use xenopus.Runtime.Permission
use xenopus.Runtime.Risk
use xenopus.Runtime.Approval.{create}
use xenopus.Tools.Contracts.{ToolContract, ToolHandler, ToolResult, failure}
use xenopus.Tools.Registry.{get}
use xenopus.Tools.Gateway.{ToolGateway, Invocation, invoke, default_validity, needs_approval}
use xenopus.Tools.Gateway.Guards.{invoke-asks, hash_for, permission_for, outcome_for}
use xenopus.Runtime.Budgets.{RetryPolicy}
use xenopus.Runtime.Executor.Attempts.{execute-settled}
use xenopus.Runtime.Executor.{settles, is_permanent, execute_with_retries, round_log}

module _ {V : Type 0} {W : Type 0} (action_hash : String → Dict V → String → String → String)
    (bin_handler : ToolHandler V W) (clock : ℕ → ℕ)
    (pause : ℕ → ToolGateway V W × W → ToolGateway V W × W) (call : Invocation V) where
  -- The gateway's answer in the `n`-th round, at the time that the clock then shows
  abbrev pub gateway_attempt : ℕ → ToolGateway V W × W → ToolResult V × (ToolGateway V W × W)
  gateway_attempt n (gateway, w) =
      let (result, gateway', w') = invoke action_hash bin_handler call (clock n) gateway w in
      (result, (gateway', w'))

  -- A permitted call that needs an approval and presents none is made once, whatever the retry policy:
  -- it is answered with `approval_required`, the handler does not run, and the ledger holds one new
  -- request for the action.
  pub execute-asks_once :
      (policy : RetryPolicy) (gateway : ToolGateway V W) (w : W) (contract : ToolContract)
      (handler : ToolHandler V W)
      → get call.tool gateway.registry ≡ ok (contract, handler)
      → permission_for gateway contract ≢ Permission.deny
      → outcome_for gateway contract ≢ Risk.deny
      → needs_approval (permission_for gateway contract) (outcome_for gateway contract) ≡ true
      → call.approval_id ≡ none
      → 1 ≤ policy.max_attempts
      → is_blank call.correlation_id ≡ false
      → execute_with_retries gateway_attempt pause policy call.correlation_id (gateway, w)
        ≡ ok (
            some (
              failure "approval_required",
              round_log 1 (failure "approval_required"),
              (
                record gateway {
                  approvals =
                      (create contract.name gateway.subject
                        (hash_for action_hash bin_handler call contract gateway)
                        contract.side_effects
                        default_validity
                        (clock 1)
                        gateway.approvals).1;
                },
                w,
              ),
            ))
  unfolding settles is_permanent
  execute-asks_once policy gateway w contract handler found permitted not_denied needed no_id h
        named =
      let asked =
        invoke-asks action_hash bin_handler call (clock 1) gateway w contract handler found
          permitted not_denied needed no_id in
      let once =
        execute-settled gateway_attempt pause policy call.correlation_id (gateway, w) h named in
      rw asked at once refl
