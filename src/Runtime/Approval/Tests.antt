-- ===== src/Runtime/Approval/Tests.antt =====
-- Runs of the ledger, and the theorems at small inputs.
use mathlib.Core.List.{Memᴰ}
use xenopus.Prelude.{◌≡◌, refl, some, List, [], ◌∷◌, err}
use xenopus.Prelude.Dict.{lookup}
use xenopus.Runtime.Approval
use xenopus.Runtime.Approval.{
  ApprovalRequest, ApprovalLedger, granted, pending, expired, has_expired, not_granted, new,
  request_name,
}
use xenopus.Runtime.Approval.Bindings.{Call, create, grant, deny, perform}
use xenopus.Runtime.Approval.Histories.{Kept, perform-Kept}
use xenopus.Runtime.Approval.Resolve.{Authorises, resolve-Authorises, resolve-not_granted}
use xenopus.Runtime.Approval.Grants.{Past, start, after, Past-IsValid, resolve-needs-grant}

abbrev asked : Call
asked = create "file_delete" "agent" "h1" "destructive" 300 1000

abbrev first : ApprovalRequest
first = record {
  request_id = "appr-000001";
  action_hash_value = "h1";
  tool = "file_delete";
  subject = "agent";
  reason = "destructive";
  created_at = 1000;
  expires_at = 1300;
  status = granted;
}

program : Unit {0}
unfolding perform Approval.create Approval.grant Approval.deny Approval.resolve request_name new
    lookup
program = tt

abbrev ledger : ApprovalLedger
ledger = (perform (grant "appr-000001") (perform asked new).1).1

abbrev calls : List Call
calls = grant "appr-000001" ∷ asked ∷ []

ledger_past : Past calls ledger
ledger_past = after (after start asked) (grant "appr-000001")

found : lookup "appr-000001" ledger.requests ≡ some first
unfolding program
found = refl

resolve-Authorises_example :
    (lookup "appr-000001" ledger.requests ≡ some first)
    × Authorises first "h1" "agent" 1300
    × ((Approval.resolve "appr-000001" "h1" "agent" 1300 ledger).1 ≡ ledger)
unfolding program
resolve-Authorises_example = resolve-Authorises "appr-000001" "h1" "agent" 1300 ledger refl

resolve-not_granted_example :
    Approval.resolve "appr-000001" "h1" "agent" 1001 (perform asked new).1
    ≡ (err (not_granted pending), (perform asked new).1)
unfolding program
resolve-not_granted_example =
    resolve-not_granted "appr-000001" "h1" "agent" 1001 (perform asked new).1
      (record first { status = pending }) refl (λ e. cc)

perform-Kept_example :
    Kept "appr-000001" (deny "appr-000001") first (perform (deny "appr-000001") ledger).1
perform-Kept_example =
    perform-Kept "appr-000001" first ledger (Past-IsValid ledger_past) found (deny "appr-000001")

resolve-needs-grant_example : Memᴰ (grant "appr-000001") calls
unfolding program
resolve-needs-grant_example =
    resolve-needs-grant "appr-000001" "h1" "agent" 1300 {r = first} ledger_past refl
