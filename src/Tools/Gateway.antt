-- ===== src/Tools/Gateway.antt =====
-- src/xenopus/tools/gateway.py: the pipeline in front of every tool. The hash of an action
-- (`action_hash`, SHA-256) and the handler that deletes into the recycle bin are parameters.
pub mod Guards
pub mod Runs
mod Tests
use text.Mathlib.Text.{starts_with}
use xenopus.Prelude.{
  ℕ, Bool, true, false, not, ◌&&◌, ◌||◌, Option, none, some, List, [], ◌∷◌, String, str_eq, Result,
  ok, err, if◌then◌else◌,
}
use xenopus.Prelude.Dict.{Dict, insert}
use xenopus.Prelude.Text.{contains}
use xenopus.Runtime.Permission
use xenopus.Runtime.Permission.{
  PermissionDecision, allow, ask, PermissionRequest, PermissionEngine, decide,
}
use xenopus.Runtime.Risk
use xenopus.Runtime.Risk.{RiskFactors, RiskOutcome, auto, approval, low, medium, evaluate}
use xenopus.Runtime.Approval.{ApprovalLedger, ApprovalRequest, ApprovalError, create, resolve}
use xenopus.Tools.Contracts.{ToolContract, ToolResult, ToolHandler, failure}
use xenopus.Tools.Registry.{ToolRegistry, ToolRegistryError, is_blocked, get}

-- `RiskEngine` has no state.
pub record ToolGateway (V : Type 0) (W : Type 0) : Type 0 where
  pub registry : ToolRegistry V W
  pub permissions : PermissionEngine
  pub approvals : ApprovalLedger
  pub subject : String
  pub recycle_bin : Option V

pub record GatewayDecision : Type 0 where
  pub permission : PermissionDecision
  pub risk_outcome : RiskOutcome
  pub approval_request_id : Option String
  pub approved : Bool

-- The arguments of one call
pub record Invocation (V : Type 0) : Type 0 where
  pub tool : String
  pub arguments : Dict V
  pub correlation_id : String
  pub approval_id : Option String
  pub path_policy : Option V

abbrev pub first_or_empty : List String → String
first_or_empty [] = ""
first_or_empty (p ∷ ps) = p

abbrev pub is_some : {A : Type 0} → Option A → Bool
is_some none = false
is_some (some a) = true

unfoldable pub permission_request : String → ToolContract → PermissionRequest
permission_request subject contract = record {
  subject = subject;
  action = first_or_empty contract.required_permissions;
  resource = none;
  tool = some contract.name;
}

unfoldable pub is_destructive : ToolContract → Bool
unfolding contains
is_destructive contract = contains "destructive" contract.side_effects

unfoldable pub risk_factors : {V : Type 0} → Option V → ToolContract → RiskFactors
unfolding is_destructive
risk_factors bin contract =
    let external = starts_with contract.side_effects "external" in
    record {
      destructiveness = is_destructive contract;
      external_side_effects = external;
      reversible = not (is_destructive contract) || is_some bin;
      sensitive_data = false;
      blast_radius = if external then medium else low;
    }

abbrev pub is_permission_deny : PermissionDecision → Bool
is_permission_deny Permission.deny = true
is_permission_deny _ = false

abbrev pub is_risk_deny : RiskOutcome → Bool
is_risk_deny Risk.deny = true
is_risk_deny _ = false

-- `permission is ASK or risk_outcome is APPROVAL`
abbrev pub needs_approval : PermissionDecision → RiskOutcome → Bool
needs_approval ask outcome = true
needs_approval _ approval = true
needs_approval _ _ = false

-- `validity_seconds` of `ApprovalLedger.create`, in microseconds
abbrev pub default_validity : ℕ
default_validity = 300000000

abbrev pub refusal_of : Result ApprovalError ApprovalRequest → Option String
refusal_of (ok request) = none
refusal_of (err e) = some "approval_invalid"

-- The approval stage: the code of a refusal, if there is one. The validity is positive, so `create`
-- does not raise.
unfoldable pub approve :
    Option String
    → (hash subject : String) (now : ℕ) → ToolContract
    → ApprovalLedger
    → Option String × ApprovalLedger
unfolding create resolve
approve none hash subject now contract ledger = (
  some "approval_required",
  (create contract.name subject hash contract.side_effects default_validity now ledger).1,
)
approve (some approval_id) hash subject now contract ledger =
    let (result, ledger') = resolve approval_id hash subject now ledger in
    (refusal_of result, ledger')

abbrev pub put : {V : Type 0} → String → Option V → Dict V → Dict V
put k none d = d
put k (some v) d = insert k v d

-- `wired_arguments`
unfoldable pub wire : {V : Type 0} → Option V → Option V → ToolContract → Dict V → Dict V
unfolding insert
wire path_policy bin contract arguments =
    let wired =
      if starts_with contract.name "file_" || str_eq contract.name "terminal_run"
      then put "__path_policy__" path_policy arguments
      else arguments in
    if str_eq contract.name "file_delete" then put "__recycle_bin__" bin wired else wired

abbrev or_crash : {V : Type 0} → Option (ToolResult V) → ToolResult V
or_crash none = failure "tool_crash"
or_crash (some result) = result

-- `invoke` returns its result, the gateway with the ledger that the call left, and the world.
abbrev pub Outcome : Type 0 → Type 0 → Type 0
Outcome V W = ToolResult V × ToolGateway V W × W

module _ {V : Type 0} {W : Type 0} where
  unfoldable pub handler_of :
      ToolHandler V W → Option V → ToolContract → ToolHandler V W → ToolHandler V W
  handler_of file_delete_recycle bin contract handler =
      if str_eq contract.name "file_delete" && is_some bin then file_delete_recycle else handler

  unfoldable pub execute : ToolHandler V W → Dict V → W → ToolResult V × W
  execute handler arguments w = let (answer, w') = handler arguments w in (or_crash answer, w')

  abbrev pub refuse : String → ToolGateway V W → W → Outcome V W
  refuse code gateway w = (failure code, gateway, w)

  abbrev pub with_tool :
      Result ToolRegistryError (ToolContract × ToolHandler V W)
      → (ToolContract → ToolHandler V W → Outcome V W)
      → ToolGateway V W
      → W
      → Outcome V W
  with_tool (ok (contract, handler)) f gateway w = f contract handler
  with_tool (err is_blocked) f gateway w = refuse "tool_quarantined" gateway w
  with_tool (err _) f gateway w = refuse "unknown_tool" gateway w

  abbrev pub unless_refused : Option String → Outcome V W → ToolGateway V W → W → Outcome V W
  unless_refused none outcome gateway w = outcome
  unless_refused (some code) outcome gateway w = refuse code gateway w

module _ {V : Type 0} {W : Type 0} (action_hash : String → Dict V → String → String → String)
    (file_delete_recycle : ToolHandler V W) where
  -- The second test of the risk, and the call of the handler
  unfoldable pub run :
      Invocation V
      → RiskOutcome
      → ToolContract
      → ToolHandler V W
      → ToolGateway V W
      → W
      → Outcome V W
  unfolding wire handler_of execute
  run call outcome contract handler gateway w =
      let (result, w') =
        execute (handler_of file_delete_recycle gateway.recycle_bin contract handler)
          (wire call.path_policy gateway.recycle_bin contract call.arguments) w in
      if is_risk_deny outcome then refuse "risk_denied" gateway w else (result, gateway, w')

  -- What `invoke` does with the contract and the handler that the registry returned
  unfoldable pub dispatch :
      Invocation V → ℕ → ToolContract → ToolHandler V W → ToolGateway V W → W → Outcome V W
  unfolding decide permission_request risk_factors evaluate approve run
  dispatch call now contract handler gateway w =
      let permission = decide gateway.permissions (permission_request gateway.subject contract) in
      let outcome = evaluate (risk_factors gateway.recycle_bin contract) contract.risk in
      let hash = action_hash contract.name call.arguments gateway.subject call.correlation_id in
      let (refusal, ledger) =
        approve call.approval_id hash gateway.subject now contract gateway.approvals in
      let gateway' : ToolGateway V W = record gateway { approvals = ledger } in
      if is_permission_deny permission
      then refuse "permission_denied" gateway w
      else if needs_approval permission outcome
      then (if is_risk_deny outcome
          then refuse "risk_denied" gateway w
          else unless_refused refusal (run call outcome contract handler gateway' w) gateway' w)
      else run call outcome contract handler gateway w

  unfoldable pub invoke : Invocation V → ℕ → ToolGateway V W → W → Outcome V W
  unfolding get dispatch
  invoke call now gateway w =
      with_tool (get call.tool gateway.registry) (λ c h. dispatch call now c h gateway w) gateway w

-- The factors of `plan_invocation`: the rest are the defaults of `RiskFactors`.
unfoldable pub planned_factors : {V : Type 0} → Option V → ToolContract → RiskFactors
unfolding is_destructive
planned_factors bin contract = record {
  destructiveness = is_destructive contract;
  external_side_effects = false;
  reversible = not (is_destructive contract) || is_some bin;
  sensitive_data = false;
  blast_radius = low;
}

unfoldable pub plan_of :
    {V : Type 0} {W : Type 0} → ToolGateway V W → ToolContract → GatewayDecision
unfolding decide permission_request planned_factors evaluate
plan_of gateway contract = record {
  permission = decide gateway.permissions (permission_request gateway.subject contract);
  risk_outcome = evaluate (planned_factors gateway.recycle_bin contract) contract.risk;
  approval_request_id = none;
  approved = false;
}

abbrev plan_result :
    {V : Type 0} {W : Type 0}
    → Result ToolRegistryError (ToolContract × ToolHandler V W)
    → (ToolContract → GatewayDecision)
    → Result ToolRegistryError GatewayDecision
plan_result (err e) f = err e
plan_result (ok (contract, handler)) f = ok (f contract)

unfoldable pub plan_invocation :
    {V : Type 0} {W : Type 0} → String → ToolGateway V W → Result ToolRegistryError GatewayDecision
unfolding get plan_of
plan_invocation tool gateway = plan_result (get tool gateway.registry) (plan_of gateway)
