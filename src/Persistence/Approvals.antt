-- ===== src/Persistence/Approvals.antt =====
-- src/xenopus/persistence/approvals_store.py: the approval ledger in SQLite. A row has the fields of a
-- request of the ledger in memory; the table is a dict of rows by their primary key, in the order of
-- their rowids. The hash of an action is made by the caller.
pub mod Refines
pub mod Reopening
mod Tests
use xenopus.Prelude.{
  ℕ, suc, ◌+◌, Bool, true, false, ◌&&◌, Option, none, some, List, [], ◌∷◌, ◌++◌, String, str_eq,
  Result, ok, err, ltb, leb, filter, map, if◌then◌else◌,
}
use xenopus.Prelude.Dict.{Dict, lookup, has}
use xenopus.Prelude.Sort.{sort_by}
use xenopus.Runtime.Approval.{
  ApprovalStatus, pending, granted, denied, expired, ApprovalRequest, ApprovalError, bad_validity,
  unknown_request, already, not_granted, has_expired, other_subject, replay_rejected, request_name,
}

-- `ApprovalError` and `ValueError` as in the ledger, and SQLite's refusal of a second row of one key
pub data StoreError : Type 0 where
  approval_error : ApprovalError → StoreError
  integrity_error : StoreError

pub record ApprovalStore : Type 0 where
  pub table : Dict ApprovalRequest
  pub counter : ℕ

abbrev pub Answer : Type 0
Answer = Result StoreError ApprovalRequest

-- `__init__` on a file with this table: the counter starts at 0.
unfoldable pub open_store : Dict ApprovalRequest → ApprovalStore
open_store table = record { table = table; counter = 0 }

abbrev pub row_or_unknown : Option ApprovalRequest → Answer
row_or_unknown none = err (approval_error unknown_request)
row_or_unknown (some row) = ok row

unfoldable pub get : String → ApprovalStore → Answer
unfolding lookup
get request_id store = row_or_unknown (lookup request_id store.table)

unfoldable pub create :
    (tool subject action_hash reason : String) (validity now : ℕ)
    → ApprovalStore
    → Answer × ApprovalStore
unfolding has get
create tool subject action_hash reason validity now store =
    let counter : ℕ = store.counter + 1 in
    let request_id : String = request_name counter in
    let row : ApprovalRequest = record {
      request_id = request_id;
      action_hash_value = action_hash;
      tool = tool;
      subject = subject;
      reason = reason;
      created_at = now;
      expires_at = now + validity;
      status = pending;
    } in
    let inserted : ApprovalStore = record {
      table = store.table ++ (request_id, row) ∷ [];
      counter = counter;
    } in
    if leb validity 0
    then (err (approval_error bad_validity), store)
    else if has request_id store.table
    then (err integrity_error, record store { counter = counter })
    else (get request_id inserted, inserted)

-- `UPDATE approvals SET status = ? WHERE request_id = ?`: the primary key names one row at most.
unfoldable pub set_status : String → ApprovalStatus → Dict ApprovalRequest → Dict ApprovalRequest
set_status request_id status [] = []
set_status request_id status ((k, row) ∷ table) =
    if str_eq k request_id
    then (k, record row { status = status }) ∷ table
    else (k, row) ∷ set_status request_id status table

-- `_update_status`
unfoldable pub update_status : String → ApprovalStatus → ApprovalStore → Answer × ApprovalStore
unfolding set_status get
update_status request_id status store =
    let updated : ApprovalStore = record store {
      table = set_status request_id status store.table;
    } in
    (get request_id updated, updated)

abbrev pub with_row :
    Answer
    → (ApprovalRequest → ApprovalStore → Answer × ApprovalStore)
    → ApprovalStore
    → Answer × ApprovalStore
with_row (err e) f store = (err e, store)
with_row (ok row) f store = f row store

-- The test of `grant` and `deny`, for the status of the row
abbrev pub if_pending :
    ApprovalStatus → String → ApprovalStatus → ApprovalStore → Answer × ApprovalStore
if_pending pending request_id status store = update_status request_id status store
if_pending other request_id status store = (err (approval_error (already other)), store)

unfoldable pub grant : String → ApprovalStore → Answer × ApprovalStore
unfolding get update_status
grant request_id store =
    with_row (get request_id store) (λ row s. if_pending row.status request_id granted s) store

unfoldable pub deny : String → ApprovalStore → Answer × ApprovalStore
unfolding get update_status
deny request_id store =
    with_row (get request_id store) (λ row s. if_pending row.status request_id denied s) store

-- The tests of `resolve` behind `get`
abbrev pub if_granted :
    ApprovalStatus
    → (request_id action_hash subject : String) (now : ℕ) → ApprovalRequest
    → ApprovalStore
    → Answer × ApprovalStore
if_granted granted request_id action_hash subject now row store =
    if ltb row.expires_at now
    then (err (approval_error has_expired), (update_status request_id expired store).1)
    else if str_eq row.subject subject
    then (if str_eq row.action_hash_value action_hash
        then (ok row, store)
        else (err (approval_error replay_rejected), store))
    else (err (approval_error other_subject), store)
if_granted other request_id action_hash subject now row store =
    (err (approval_error (not_granted other)), store)

unfoldable pub resolve :
    (request_id action_hash subject : String) (now : ℕ) → ApprovalStore → Answer × ApprovalStore
unfolding get update_status
resolve request_id action_hash subject now store =
    with_row (get request_id store)
      (λ row s. if_granted row.status request_id action_hash subject now row s) store

abbrev pub is_granted : ApprovalStatus → Bool
is_granted granted = true
is_granted _ = false

abbrev pub is_pending : ApprovalStatus → Bool
is_pending pending = true
is_pending _ = false

-- The rows that `reap_expired` selects
unfoldable pub lapsed : ℕ → Dict ApprovalRequest → List String
lapsed now table =
    map (λ e. e.0) (filter (λ e. is_granted e.1.status && leb e.1.expires_at now) table)

-- Its loop; each step returns the row that it changed.
unfoldable pub expire_each : List String → ApprovalStore → List Answer × ApprovalStore
unfolding update_status
expire_each [] store = ([], store)
expire_each (request_id ∷ ids) store =
    let (row, store') = update_status request_id expired store in
    let (rows, store'') = expire_each ids store' in (row ∷ rows, store'')

unfoldable pub reap_expired : ℕ → ApprovalStore → List Answer × ApprovalStore
unfolding lapsed expire_each
reap_expired now store = expire_each (lapsed now store.table) store

-- `ORDER BY created_at, rowid`: a stable sort of the rows
unfoldable pub list_pending : ApprovalStore → List Answer
unfolding get sort_by
list_pending store =
    map (λ e. get e.0 store)
      (sort_by (λ a b. leb a.1.created_at b.1.created_at)
        (filter (λ e. is_pending e.1.status) store.table))
