-- ===== src/Tools/Gateway/Runs.antt =====
-- That the gateway runs what it admits: the converse of Guards.
use xenopus.Prelude.{ℕ, ◌≡◌, none, Option, some, String, ok, arith, inl, inr}
use xenopus.Prelude.Dict.{Dict}
use xenopus.Runtime.Approval.{ApprovalLedger}
use xenopus.Runtime.Approval.Resolve.{Authorises-resolve}
use xenopus.Tools.Contracts.{ToolContract, ToolHandler, ToolResult}
use xenopus.Tools.Registry.{get}
use xenopus.Tools.Gateway.{
  ToolGateway, Invocation, approve, wire, handler_of, execute, run, dispatch, invoke,
}
use xenopus.Tools.Gateway.Guards.{Admitted, Approved, invoked, hash_for}

approve-fine :
    (approval_id : Option String) (hash subject : String) (now : ℕ) (contract : ToolContract)
    (ledger : ApprovalLedger)
    → Approved approval_id hash subject now ledger
    → approve approval_id hash subject now contract ledger ≡ (none, ledger)
unfolding approve
approve-fine none hash subject now contract ledger (k, r, e, stored, a) = cc
approve-fine (some j) hash subject now contract ledger (k, r, e, stored, a) =
    let resolved = Authorises-resolve k hash subject now ledger r stored a in
    ground (arith, resolved)

module _ {V : Type 0} {W : Type 0} (action_hash : String → Dict V → String → String → String)
    (bin_handler : ToolHandler V W) where
  abbrev pub ran :
      Invocation V → ToolContract → ToolHandler V W → ToolGateway V W → W → ToolResult V × W
  ran call contract handler gateway w =
      execute (handler_of bin_handler gateway.recycle_bin contract handler)
        (wire call.path_policy gateway.recycle_bin contract call.arguments) w

  -- What is admitted runs: the call returns what the handler makes of the wired arguments and of the
  -- world, and the ledger stays as it was.
  pub invoke-runs :
      (call : Invocation V) (now : ℕ) (gateway : ToolGateway V W) (w : W) (contract : ToolContract)
      (handler : ToolHandler V W)
      → get call.tool gateway.registry ≡ ok (contract, handler)
      → Admitted action_hash bin_handler call now contract gateway
      → invoked action_hash bin_handler call now gateway w ≡ (
        (ran call contract handler gateway w).0,
        gateway,
        (ran call contract handler gateway w).1,
      )
  unfolding invoke dispatch run
  invoke-runs call now gateway w contract handler found a = rw found (elim a.approved [
    | inl free ↦ ground (arith, a.permitted, a.not_denied, free)
    | inr approved ↦
        let fine =
          approve-fine call.approval_id (hash_for action_hash bin_handler call contract gateway)
            gateway.subject now contract gateway.approvals approved in
        ground (arith, a.permitted, a.not_denied, fine)
  ])
