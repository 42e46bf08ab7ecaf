-- ===== src/Persistence/Approvals/Reopening.antt =====
-- What happens to a store that is opened again.
use xenopus.Prelude.{
  ℕ, ◌+◌, ◌≤◌, ◌≡◌, refl, true, ◌||◌, List, [], ◌∷◌, ◌++◌, String, str_eq, str_eq_iff, ok, err,
  arith,
}
use xenopus.Prelude.Dict.{Dict, has}
use xenopus.Runtime.Approval.{
  ApprovalStatus, pending, granted, denied, expired, ApprovalRequest, request_name,
}
use xenopus.Runtime.Approval.Bindings.{Call}
use xenopus.Persistence.Approvals
use xenopus.Persistence.Approvals.{
  integrity_error, ApprovalStore, Answer, open_store, get, create, set_status, update_status,
  with_row, if_pending, if_granted,
}
use xenopus.Persistence.Approvals.Refines.{perform, run}

has-set_status :
    (k j : String) (st : ApprovalStatus) (d : Dict ApprovalRequest)
    → has k (set_status j st d) ≡ has k d
unfolding has set_status
has-set_status k j st [] = refl
has-set_status k j st ((i, r) ∷ d) = ground (arith, has-set_status k j st d)

has-append :
    (k j : String) (r : ApprovalRequest) (d : Dict ApprovalRequest)
    → has k (d ++ (j, r) ∷ []) ≡ (has k d || str_eq j k)
unfolding has
has-append k j r [] = ground arith
has-append k j r ((i, q) ∷ d) = ground (arith, has-append k j r d)

-- The table keeps its keys.
abbrev Keeps : String → ApprovalStore → ApprovalStore → Type 0
Keeps k s s' = has k s.table ≡ true → has k s'.table ≡ true

with_row-Keeps :
    (k : String) (a : Answer) (f : ApprovalRequest → ApprovalStore → Answer × ApprovalStore)
    (s : ApprovalStore)
    → ((r : ApprovalRequest) → Keeps k s (f r s).1)
    → Keeps k s (with_row a f s).1
with_row-Keeps k (ok r) f s h = h r
with_row-Keeps k (err e) f s h = λ there. there

if_pending-Keeps :
    (k j : String) (now st : ApprovalStatus) (s : ApprovalStore)
    → Keeps k s (if_pending now j st s).1
unfolding update_status
if_pending-Keeps k j pending st s there = rw (has-set_status k j st s.table) there
if_pending-Keeps k j _ st s there = there

if_granted-Keeps :
    (k : String) (now : ApprovalStatus) (j h subject : String) (n : ℕ) (r : ApprovalRequest)
    (s : ApprovalStore)
    → Keeps k s (if_granted now j h subject n r s).1
unfolding update_status
if_granted-Keeps k granted j h subject n r s there =
    ground (arith, has-set_status k j expired s.table)
if_granted-Keeps k _ j h subject n r s there = there

-- The row that `create` inserts
abbrev new_row :
    String → (tool subject action_hash reason : String) (validity now : ℕ) → ApprovalRequest
new_row k t sub h why v n = record {
  request_id = k;
  action_hash_value = h;
  tool = t;
  subject = sub;
  reason = why;
  created_at = n;
  expires_at = n + v;
  status = pending;
}

perform-Keeps : (k : String) (c : Call) (s : ApprovalStore) → Keeps k s (perform c s).1
unfolding perform Approvals.create Approvals.grant Approvals.deny Approvals.resolve
perform-Keeps k (Call.create t sub h why v n) s there = ground (
  arith,
  has-append k (request_name (s.counter + 1))
      (new_row (request_name (s.counter + 1)) t sub h why v n) s.table,
)
perform-Keeps k (Call.grant j) s there =
    with_row-Keeps k (get j s) _ s (λ r. if_pending-Keeps k j r.status granted s) there
perform-Keeps k (Call.deny j) s there =
    with_row-Keeps k (get j s) _ s (λ r. if_pending-Keeps k j r.status denied s) there
perform-Keeps k (Call.resolve j h sub n) s there =
    with_row-Keeps k (get j s) _ s (λ r. if_granted-Keeps k r.status j h sub n r s) there

run-Keeps : (k : String) (cs : List Call) (s : ApprovalStore) → Keeps k s (run cs s).1
unfolding run
run-Keeps k [] s there = there
run-Keeps k (c ∷ cs) s there = run-Keeps k cs (perform c s).1 (perform-Keeps k c s there)

create-has :
    (t sub h why : String) (v n : ℕ) (table : Dict ApprovalRequest) (row : ApprovalRequest)
    → (create t sub h why v n (open_store table)).0 ≡ ok row
    → has (request_name 1) (create t sub h why v n (open_store table)).1.table ≡ true
unfolding create open_store
create-has t sub h why v n table row made = ground (
  arith,
  has-append (request_name 1) (request_name 1) (new_row (request_name 1) t sub h why v n) table,
  str_eq_iff (request_name 1) (request_name 1),
)

create-taken :
    (t sub h why : String) (v n : ℕ) (table : Dict ApprovalRequest)
    → 1 ≤ v
    → has (request_name 1) table ≡ true
    → (create t sub h why v n (open_store table)).0 ≡ err integrity_error
unfolding create open_store
create-taken t sub h why v n table positive taken = ground (arith, taken)

-- Once a store that was opened has made its first request, whatever calls follow, the first `create`
-- after it is opened again is refused by SQLite: the counter starts over, and the key is taken.
pub reopened-collides :
    (t sub h why : String) (v n : ℕ) (table : Dict ApprovalRequest) (row : ApprovalRequest)
    (cs : List Call) (t' sub' h' why' : String) (v' n' : ℕ)
    → (create t sub h why v n (open_store table)).0 ≡ ok row
    → 1 ≤ v'
    → (create t' sub' h' why' v' n'
        (open_store (run cs (create t sub h why v n (open_store table)).1).1.table)).0
      ≡ err integrity_error
reopened-collides t sub h why v n table row cs t' sub' h' why' v' n' made positive =
    let first = (create t sub h why v n (open_store table)).1 in
    let taken = run-Keeps (request_name 1) cs first (create-has t sub h why v n table row made) in
    create-taken t' sub' h' why' v' n' (run cs first).1.table positive taken
