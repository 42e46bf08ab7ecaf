-- ===== src/Tools/Gateway/Guards.antt =====
-- What the gateway lets through: a handler runs only behind the permissions, the risk table and,
-- where either asks for one, a granted approval that is bound to this very action.
use mathlib.Core.List.{Memᴰ}
use xenopus.Prelude.{
  ℕ, ◌≡◌, ◌≢◌, refl, ap, true, false, Option, none, some, List, String, ok, err, Result, arith,
  Bool-cases, Option-cases, inl, inr, ◌⊎◌,
}
use xenopus.Prelude.Dict.{Dict, lookup}
use xenopus.Runtime.Permission
use xenopus.Runtime.Permission.{PermissionDecision, allow, ask, decide}
use xenopus.Runtime.Risk
use xenopus.Runtime.Risk.{RiskOutcome, auto, approval, evaluate, score, level_value}
use xenopus.Runtime.Approval.{ApprovalLedger, ApprovalRequest, ApprovalError, resolve, create}
use xenopus.Runtime.Approval.Resolve.{Authorises, resolve-Authorises, Authorises-resolve}
use xenopus.Runtime.Approval.Bindings.{Call, grant}
use xenopus.Runtime.Approval.Grants.{Past, resolve-needs-grant}
use xenopus.Tools.Contracts.{ToolContract, ToolHandler, failure}
use xenopus.Tools.Registry.{get, ToolRegistryError, is_blocked, unknown_tool, already_registered}
use xenopus.Tools.Gateway.{
  ToolGateway, Invocation, permission_request, risk_factors, planned_factors, is_destructive,
  refusal_of, with_tool, default_validity, Outcome, is_permission_deny, is_risk_deny,
  needs_approval, approve, run, dispatch, invoke, plan_of,
}

abbrev pub outcome_for : {V : Type 0} {W : Type 0} → ToolGateway V W → ToolContract → RiskOutcome
outcome_for gateway contract = evaluate (risk_factors gateway.recycle_bin contract) contract.risk

abbrev pub permission_for :
    {V : Type 0} {W : Type 0} → ToolGateway V W → ToolContract → PermissionDecision
permission_for gateway contract =
    decide gateway.permissions (permission_request gateway.subject contract)

-- A granted approval that is presented with the call and binds its action
abbrev pub Approved : Option String → String → String → ℕ → ApprovalLedger → Type 0
Approved approval_id hash subject now ledger =
    (k : String) × (r : ApprovalRequest) × (approval_id ≡ some k)
    × (lookup k ledger.requests ≡ some r)
    × Authorises r hash subject now

not_permission_deny : (p : PermissionDecision) → is_permission_deny p ≡ false → p ≢ Permission.deny
not_permission_deny p h e = ground arith

not_risk_deny : (o : RiskOutcome) → is_risk_deny o ≡ false → o ≢ Risk.deny
not_risk_deny o h e = ground arith

refusal_of-none :
    (x : Result ApprovalError ApprovalRequest)
    → refusal_of x ≡ none
    → (r : ApprovalRequest) × (x ≡ ok r)
refusal_of-none (ok r) h = (r, refl)
refusal_of-none (err e) h = cc

approve-Approved :
    (approval_id : Option String) (hash subject : String) (now : ℕ) (contract : ToolContract)
    (ledger : ApprovalLedger)
    → (approve approval_id hash subject now contract ledger).0 ≡ none
    → Approved approval_id hash subject now ledger
unfolding approve
approve-Approved none hash subject now contract ledger h = cc
approve-Approved (some k) hash subject now contract ledger h =
    let (r, resolved) = refusal_of-none (resolve k hash subject now ledger).0 h in
    let (found, a, _) = resolve-Authorises k hash subject now ledger resolved in
    (k, r, refl, found, a)

module _ {V : Type 0} {W : Type 0} (action_hash : String → Dict V → String → String → String)
    (bin_handler : ToolHandler V W) where
  abbrev pub hash_for : Invocation V → ToolContract → ToolGateway V W → String
  hash_for call contract gateway =
      action_hash contract.name call.arguments gateway.subject call.correlation_id

  -- What a contract needs so that its handler may run
  pub record Admitted (call : Invocation V) (now : ℕ) (contract : ToolContract)
      (gateway : ToolGateway V W) : Type 0 where
    pub permitted : permission_for gateway contract ≢ Permission.deny
    pub not_denied : outcome_for gateway contract ≢ Risk.deny
    pub approved :
        (needs_approval (permission_for gateway contract) (outcome_for gateway contract) ≡ false)
        ⊎ Approved call.approval_id
            (hash_for call contract gateway)
            gateway.subject
            now
            gateway.approvals

  abbrev outcome_of :
      Invocation V → ℕ → ToolContract → ToolHandler V W → ToolGateway V W → W → Outcome V W
  outcome_of call now contract handler gateway w =
      dispatch action_hash bin_handler call now contract handler gateway w

  -- The call failed, and nothing but the ledger changed.
  abbrev pub Refused : Outcome V W → W → Type 0
  Refused outcome w = (outcome.2 ≡ w) × (outcome.0.is_ok ≡ false)

  dispatch-Admitted :
      (call : Invocation V) (now : ℕ) (contract : ToolContract) (handler : ToolHandler V W)
      (gateway : ToolGateway V W) (w : W)
      → Refused (outcome_of call now contract handler gateway w) w
        ⊎ Admitted call now contract gateway
  unfolding dispatch run
  dispatch-Admitted call now contract handler gateway w =
      let p : PermissionDecision = permission_for gateway contract in
      let o : RiskOutcome = outcome_for gateway contract in
      elim (Bool-cases (is_permission_deny p)) [
        | inl denied ↦ inl (ground arith)
        | inr permitted ↦ elim (Bool-cases (is_risk_deny o)) [
          | inl denied ↦ inl (ground arith)
          | inr not_denied ↦ elim (Bool-cases (needs_approval p o)) [
            | inr free ↦ inr (record {
              permitted = not_permission_deny p permitted;
              not_denied = not_risk_deny o not_denied;
              approved = inl free;
            })
            | inl needed ↦
                let hash = hash_for call contract gateway in
                elim (Option-cases
                  (approve call.approval_id hash gateway.subject now contract
                    gateway.approvals).0) [
                      | inl fine ↦ inr (record {
                        permitted = not_permission_deny p permitted;
                        not_denied = not_risk_deny o not_denied;
                        approved = inr (
                            approve-Approved call.approval_id hash gateway.subject now contract
                              gateway.approvals fine);
                      })
                      | inr (code, refused) ↦ inl (ground arith)
                    ]
          ]
        ]
      ]

  Result-get :
      (call : Invocation V) (gateway : ToolGateway V W)
      → ((e : ToolRegistryError) × (get call.tool gateway.registry ≡ err e))
        ⊎ ((contract : ToolContract) × (handler : ToolHandler V W) × (get call.tool gateway.registry
              ≡ ok (contract, handler)))
  Result-get call gateway = go (get call.tool gateway.registry) refl
    where
      go :
          (x : Result ToolRegistryError (ToolContract × ToolHandler V W))
          → get call.tool gateway.registry ≡ x
          → ((e : ToolRegistryError) × (get call.tool gateway.registry ≡ err e))
            ⊎ ((contract : ToolContract) × (handler : ToolHandler V W) × (get call.tool
                    gateway.registry
                  ≡ ok (contract, handler)))
      go (ok (contract, handler)) e = inr (contract, handler, e)
      go (err x) e = inl (x, e)

  with_tool-err :
      (e : ToolRegistryError) (f : ToolContract → ToolHandler V W → Outcome V W)
      (gateway : ToolGateway V W) (w : W)
      → Refused (with_tool (err e) f gateway w) w
  with_tool-err is_blocked f gateway w = (refl, refl)
  with_tool-err unknown_tool f gateway w = (refl, refl)
  with_tool-err already_registered f gateway w = (refl, refl)

  abbrev pub invoked : Invocation V → ℕ → ToolGateway V W → W → Outcome V W
  invoked call now gateway w = invoke action_hash bin_handler call now gateway w

  -- A call of `invoke` is refused, with the world left as it was, or its tool is registered, not
  -- quarantined and admitted: neither the permissions nor the risk table deny it, and when one of
  -- them asks for an approval, a granted one is presented that binds the hash of this very action.
  pub invoke-Admitted :
      (call : Invocation V) (now : ℕ) (gateway : ToolGateway V W) (w : W)
      → Refused (invoked call now gateway w) w
        ⊎ ((contract : ToolContract) × (handler : ToolHandler V W) × (get call.tool gateway.registry
              ≡ ok (contract, handler))
            × Admitted call now contract gateway)
  unfolding invoke
  invoke-Admitted call now gateway w = elim (Result-get call gateway) [
    | inl (e, missing) ↦ inl (rw missing (with_tool-err e _ gateway w))
    | inr (contract, handler, found) ↦
        elim (dispatch-Admitted call now contract handler gateway w) [
          | inl refused ↦ inl (rw found refused)
          | inr admitted ↦ inr (contract, handler, found, admitted)
        ]
  ]

  module _ (call : Invocation V) (now : ℕ) (gateway : ToolGateway V W) (w : W)
      (contract : ToolContract) (handler : ToolHandler V W)
      (found : get call.tool gateway.registry ≡ ok (contract, handler)) where
    denied-Refused :
        outcome_for gateway contract ≡ Risk.deny → Refused (invoked call now gateway w) w
    unfolding invoke
    denied-Refused h = rw found (elim (dispatch-Admitted call now contract handler gateway w) [
      | inl refused ↦ refused
      | inr admitted ↦ absurd (admitted.not_denied h)
    ])

    -- Without a recycle bin a destructive tool never runs, whatever is permitted and approved.
    pub invoke-destructive :
        is_destructive contract ≡ true
        → gateway.recycle_bin ≡ none
        → Refused (invoked call now gateway w) w
    unfolding evaluate risk_factors
    invoke-destructive destructive no_bin = denied-Refused (ground arith)

    -- What the planner's pre-flight finds denied by risk, `invoke` refuses.
    pub plan_deny-Refused :
        (plan_of gateway contract).risk_outcome ≡ Risk.deny → Refused (invoked call now gateway w) w
    unfolding evaluate score risk_factors plan_of planned_factors
    plan_deny-Refused h = denied-Refused (ground arith)

    -- A permitted call that needs an approval and presents none is answered with
    -- `approval_required`: nothing runs, and the ledger holds a new pending request that is bound to
    -- this action.
    pub invoke-asks :
        permission_for gateway contract ≢ Permission.deny
        → outcome_for gateway contract ≢ Risk.deny
        → needs_approval (permission_for gateway contract) (outcome_for gateway contract) ≡ true
        → call.approval_id ≡ none
        → invoked call now gateway w ≡ (
          failure "approval_required",
          record gateway {
            approvals =
                (create contract.name gateway.subject
                  (hash_for call contract gateway)
                  contract.side_effects
                  default_validity
                  now
                  gateway.approvals).1;
          },
          w,
        )
    unfolding invoke dispatch approve
    invoke-asks permitted not_denied needed no_id = rw found (ground arith)

    -- Over any sequence of calls of the ledger: a call that succeeds where an approval is needed
    -- presents the id of a request that was granted.
    pub invoke-needs-grant :
        {cs : List Call}
        → Past cs gateway.approvals
        → needs_approval (permission_for gateway contract) (outcome_for gateway contract) ≡ true
        → (invoked call now gateway w).0.is_ok ≡ true
        → (k : String) × (call.approval_id ≡ some k) × Memᴰ (grant k) cs
    unfolding invoke
    invoke-needs-grant past needed fine =
        elim (dispatch-Admitted call now contract handler gateway w) [
          | inl refused ↦ cc (rw found at fine, refused.1)
          | inr admitted ↦ elim admitted.approved [
            | inl free ↦ cc (needed, free)
            | inr (k, r, presented, stored, a) ↦ (
              k,
              presented,
              resolve-needs-grant k _ gateway.subject now past (
                  ap (λ m. m.0)
                    (Authorises-resolve k _ gateway.subject now gateway.approvals r stored a)),
            )
          ]
        ]
