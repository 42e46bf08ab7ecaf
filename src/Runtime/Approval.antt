-- ===== src/Runtime/Approval.antt =====
-- src/xenopus/runtime/approval.py: the ledger of approval requests. A point in time and a duration
-- are numbers of microseconds; the clock's answer is the argument `now` of a call.
pub mod Bindings
pub mod Resolve
pub mod Histories
pub mod Grants
mod Tests
use xenopus.Prelude.{
  ℕ, suc, ◌+◌, Bool, true, false, Option, none, some, String, str_eq, Result, ok, err, ltb, leb,
  if◌then◌else◌,
}
use xenopus.Prelude.Dict.{Dict, empty, lookup, insert}
use xenopus.Prelude.Decimal.{padded}

pub data ApprovalStatus : Type 0 where
  pending granted denied expired : ApprovalStatus

pub record ApprovalRequest : Type 0 where
  pub request_id : String
  pub action_hash_value : String
  pub tool : String
  pub subject : String
  pub reason : String
  pub created_at : ℕ
  pub expires_at : ℕ
  pub status : ApprovalStatus

-- `ValueError` of `create`, and what the messages of `ApprovalError` tell apart
pub data ApprovalError : Type 0 where
  bad_validity unknown_request : ApprovalError
  already : ApprovalStatus → ApprovalError
  not_granted : ApprovalStatus → ApprovalError
  has_expired other_subject replay_rejected : ApprovalError

pub record ApprovalLedger : Type 0 where
  pub requests : Dict ApprovalRequest
  pub counter : ℕ

unfoldable pub new : ApprovalLedger
new = record { requests = empty; counter = 0 }

-- `f"appr-{self.counter:06d}"`
unfoldable pub request_name : ℕ → String
unfolding padded
request_name counter =
    String.◌∷◌ "a"
      (String.◌∷◌ "p" (String.◌∷◌ "p" (String.◌∷◌ "r" (String.◌∷◌ "-" (padded 6 counter)))))

unfoldable pub create :
    (tool subject action_hash_value reason : String) (validity now : ℕ)
    → ApprovalLedger
    → Result ApprovalError ApprovalRequest × ApprovalLedger
unfolding insert
create tool subject action_hash_value reason validity now ledger =
    let counter : ℕ = ledger.counter + 1 in
    let request : ApprovalRequest = record {
      request_id = request_name counter;
      action_hash_value = action_hash_value;
      tool = tool;
      subject = subject;
      reason = reason;
      created_at = now;
      expires_at = now + validity;
      status = pending;
    } in
    if leb validity 0 then (err bad_validity, ledger) else (
      ok request,
      record { requests = insert request.request_id request ledger.requests; counter = counter },
    )

abbrev pub or_unknown : Option ApprovalRequest → Result ApprovalError ApprovalRequest
or_unknown none = err unknown_request
or_unknown (some request) = ok request

-- `_require`, and `get`
unfoldable pub require : String → ApprovalLedger → Result ApprovalError ApprovalRequest
unfolding lookup
require request_id ledger = or_unknown (lookup request_id ledger.requests)

-- `_update`
unfoldable pub update :
    ApprovalRequest → ApprovalStatus → ApprovalLedger → ApprovalRequest × ApprovalLedger
unfolding insert
update request status ledger =
    let updated : ApprovalRequest = record request { status = status } in
    (updated, record ledger { requests = insert updated.request_id updated ledger.requests })

-- `_assert_pending` and then `_update`, for the request that `_require` returned
unfoldable pub decide_pending :
    ApprovalStatus
    → ApprovalStatus
    → ApprovalRequest
    → ApprovalLedger
    → Result ApprovalError ApprovalRequest × ApprovalLedger
unfolding update
decide_pending pending status request ledger =
    let (updated, ledger') = update request status ledger in (ok updated, ledger')
decide_pending other status request ledger = (err (already other), ledger)

abbrev pub with_required :
    {A : Type 0}
    → Result ApprovalError ApprovalRequest
    → (ApprovalRequest → ApprovalLedger → Result ApprovalError A × ApprovalLedger)
    → ApprovalLedger
    → Result ApprovalError A × ApprovalLedger
with_required (ok request) f ledger = f request ledger
with_required (err e) f ledger = (err e, ledger)

unfoldable pub grant :
    String → ApprovalLedger → Result ApprovalError ApprovalRequest × ApprovalLedger
unfolding require decide_pending
grant request_id ledger =
    with_required (require request_id ledger) (λ r l. decide_pending r.status granted r l) ledger

unfoldable pub deny :
    String → ApprovalLedger → Result ApprovalError ApprovalRequest × ApprovalLedger
unfolding require decide_pending
deny request_id ledger =
    with_required (require request_id ledger) (λ r l. decide_pending r.status denied r l) ledger

-- The tests of `resolve`, in its order; the first field is the status of the request.
unfoldable pub validate :
    ApprovalStatus
    → (action_hash_value subject : String) (now : ℕ) → ApprovalRequest
    → ApprovalLedger
    → Result ApprovalError ApprovalRequest × ApprovalLedger
unfolding update
validate granted action_hash_value subject now request ledger =
    if ltb request.expires_at now
    then (err has_expired, (update request expired ledger).1)
    else if str_eq request.subject subject
    then (if str_eq request.action_hash_value action_hash_value
        then (ok request, ledger)
        else (err replay_rejected, ledger))
    else (err other_subject, ledger)
validate other action_hash_value subject now request ledger = (err (not_granted other), ledger)

unfoldable pub resolve :
    (request_id action_hash_value subject : String) (now : ℕ)
    → ApprovalLedger
    → Result ApprovalError ApprovalRequest × ApprovalLedger
unfolding require validate
resolve request_id action_hash_value subject now ledger =
    with_required (require request_id ledger)
      (λ r l. validate r.status action_hash_value subject now r l) ledger
