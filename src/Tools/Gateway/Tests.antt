-- ===== src/Tools/Gateway/Tests.antt =====
-- A gateway with one tool that deletes, and the theorems at calls of it. The world is a number that
-- the tool resets.
use mathlib.Core.List.{Memᴰ}
use xenopus.Prelude.{
  ℕ, ◌≡◌, ◌⊎◌, refl, true, inr, ◌+◌, arith, Option, none, some, List, [], ◌∷◌, String, ok,
}
use xenopus.Prelude.Dict.{Dict}
use xenopus.Runtime.Permission.{allow, decide}
use xenopus.Runtime.Risk.{high, evaluate}
use xenopus.Runtime.Approval
use xenopus.Runtime.Approval.Bindings.{Call, create, grant, perform}
use xenopus.Runtime.Approval.Grants.{Past, start, after}
use xenopus.Tools.Contracts.{ToolContract, ToolHandler, ToolResult, success, failure}
use xenopus.Tools.Registry.{get}
use xenopus.Tools.Gateway.{
  ToolGateway, Invocation, invoke, execute, permission_request, risk_factors, default_validity,
  plan_of,
}
use xenopus.Runtime.Executor.{execute_with_retries, round_log}
use xenopus.Runtime.Executor.Requests.{gateway_attempt, execute-asks_once}
use xenopus.Tools.Gateway.Runs.{invoke-runs}
use xenopus.Tools.Gateway.Guards.{
  Refused, Admitted, invoked, invoke-Admitted, invoke-destructive, invoke-needs-grant,
}

abbrev hash : String → Dict ℕ → String → String → String
hash tool arguments subject correlation_id = tool

abbrev delete : ToolHandler ℕ ℕ
delete arguments w = (some (success []), 0)

abbrev deleter : ToolContract
deleter = record {
  name = "file_delete";
  side_effects = "destructive: removes a file";
  required_permissions = "file_delete" ∷ [];
  risk = high;
  timeout = 30000000;
  idempotent = true;
}

abbrev calls : List Call
calls =
    grant "appr-000001"
    ∷ create "file_delete" "agent" "file_delete" "destructive: removes a file" default_validity 5
    ∷ []

abbrev asked : Approval.ApprovalLedger
asked =
    (perform
      (create "file_delete" "agent" "file_delete" "destructive: removes a file" default_validity 5)
      Approval.new).1

abbrev ledger : Approval.ApprovalLedger
ledger = (perform (grant "appr-000001") asked).1

ledger_past : Past calls ledger
ledger_past = after (after start _) _

abbrev granted_request : Approval.ApprovalRequest
granted_request = record {
  request_id = "appr-000001";
  action_hash_value = "file_delete";
  tool = "file_delete";
  subject = "agent";
  reason = "destructive: removes a file";
  created_at = 5;
  expires_at = 5 + default_validity;
  status = Approval.granted;
}

abbrev with_bin : Option ℕ → ToolGateway ℕ ℕ
with_bin bin = record {
  registry = record { tools = ("file_delete", (deleter, delete)) ∷ []; blocked = [] };
  permissions =
      record { decision = allow; subject = none; action = none; resource = none; tool = none } ∷ [];
  approvals = ledger;
  subject = "agent";
  recycle_bin = bin;
}

abbrev call : Option String → Invocation ℕ
call approval_id = record {
  tool = "file_delete";
  arguments = [];
  correlation_id = "c";
  approval_id = approval_id;
  path_policy = none;
}

program : Unit {0}
unfolding invoke get plan_of decide permission_request risk_factors evaluate perform Approval.create
    Approval.grant Approval.new Approval.request_name
program = tt

found : get "file_delete" (with_bin none).registry ≡ ok (deleter, delete)
unfolding program
found = refl

found' : get "file_delete" (with_bin (some 7)).registry ≡ ok (deleter, delete)
unfolding program
found' = refl

invoke-Admitted_example :
    Refused hash delete (invoked hash delete (call (some "appr-000001")) 9 (with_bin (some 7)) 3) 3
    ⊎ ((contract : ToolContract) × (handler : ToolHandler ℕ ℕ) × (get "file_delete"
            (with_bin (some 7)).registry
          ≡ ok (contract, handler))
        × Admitted hash delete (call (some "appr-000001")) 9 contract (with_bin (some 7)))
invoke-Admitted_example =
    invoke-Admitted hash delete (call (some "appr-000001")) 9 (with_bin (some 7)) 3

invoke-destructive_example :
    Refused hash delete (invoked hash delete (call (some "appr-000001")) 9 (with_bin none) 3) 3
unfolding program
invoke-destructive_example =
    invoke-destructive hash delete (call (some "appr-000001")) 9 (with_bin none) 3 deleter delete
      found refl refl

execute-asks_once_example :
    execute_with_retries
      (gateway_attempt hash delete (λ n. 9) (λ d s. s) (call none))
      (λ d s. s)
      record { max_attempts = 3; backoff_base = 1 }
      "c"
      (with_bin (some 7), 3)
    ≡ ok (
        some (
          failure "approval_required",
          round_log 1 (failure "approval_required"),
          (
            record (with_bin (some 7)) {
              approvals =
                  (Approval.create "file_delete" "agent" "file_delete" "destructive: removes a file"
                    default_validity 9 ledger).1;
            },
            3,
          ),
        ))
unfolding program
execute-asks_once_example =
    execute-asks_once hash delete (λ n. 9) (λ d s. s) (call none)
      record { max_attempts = 3; backoff_base = 1 } (with_bin (some 7)) 3 deleter delete found'
      (λ e. cc) (λ e. cc) refl refl (omega arith) refl

invoke-needs-grant_example :
    (k : String) × ((call (some "appr-000001")).approval_id ≡ some k) × Memᴰ (grant k) calls
unfolding program
invoke-needs-grant_example =
    invoke-needs-grant hash delete (call (some "appr-000001")) 9 (with_bin (some 7)) 3 deleter
      delete found' ledger_past refl refl

abbrev reset : ToolResult ℕ
reset = success []

admitted : Admitted hash delete (call (some "appr-000001")) 9 deleter (with_bin (some 7))
unfolding program
admitted = record {
  permitted = λ e. cc;
  not_denied = λ e. cc;
  approved = inr (
    "appr-000001",
    granted_request,
    refl,
    refl,
    record {
      granted_status = refl;
      in_time = omega arith;
      same_subject = refl;
      same_action = refl;
    },
  );
}

invoke-runs_example :
    invoked hash delete (call (some "appr-000001")) 9 (with_bin (some 7)) 3
    ≡ (reset, with_bin (some 7), 0)
unfolding program execute
invoke-runs_example =
    invoke-runs hash delete (call (some "appr-000001")) 9 (with_bin (some 7)) 3 deleter delete
      found' admitted
