-- ===== src/Persistence/Approvals/Tests.antt =====
-- Calls of the store, and the theorems at them.
use xenopus.Prelude.{◌≡◌, refl, List, [], ◌∷◌, ok, map}
use xenopus.Prelude.Dict.{lookup, has}
use xenopus.Prelude.Decimal.{padded}
use xenopus.Runtime.Approval.{ApprovalRequest, new, pending, request_name}
use xenopus.Runtime.Approval.Bindings.{Call, IsValid}
use xenopus.Persistence.Approvals.{open_store, create, get}
use xenopus.Persistence.Approvals.Refines.{stored, lifted, run, run_ledger, run-stored}

abbrev calls : List Call
calls =
    Call.create "write" "agent" "h1" "why" 300 1000
    ∷ Call.grant "appr-000001"
    ∷ Call.resolve "appr-000001" "h1" "agent" 1301
    ∷ Call.deny "appr-000001"
    ∷ []

new-IsValid : IsValid new
unfolding new lookup
new-IsValid = record { keyed = λ k r h. cc; fresh = λ n h. refl }

run-stored_example :
    run calls (stored new) ≡ (map lifted (run_ledger calls new).0, stored (run_ledger calls new).1)
run-stored_example = run-stored calls new new-IsValid

abbrev first : ApprovalRequest
first = record {
  request_id = "appr-000001";
  action_hash_value = "h1";
  tool = "write";
  subject = "agent";
  reason = "why";
  created_at = 1000;
  expires_at = 1300;
  status = pending;
}

created : (create "write" "agent" "h1" "why" 300 1000 (open_store [])).0 ≡ ok first
unfolding create open_store get has lookup request_name padded
created = refl
