-- ===== src/Persistence/Approvals/Refines.antt =====
-- The store does what the ledger in memory does.
use xenopus.Prelude.{
  ℕ, ◌+◌, ◌≡◌, refl, ap, false, none, some, List, [], ◌∷◌, ◌++◌, String, str_eq, str_eq_iff, Result,
  ok, err, arith, ltb, leb, map, Bool-cases, Option-cases, inl, inr,
}
use xenopus.Prelude.Dict.{Dict, lookup, insert, has}
use xenopus.Runtime.Approval
use xenopus.Runtime.Approval.{
  ApprovalStatus, pending, granted, denied, expired, ApprovalRequest, ApprovalError, ApprovalLedger,
  new, request_name, require, update, decide_pending, validate, with_required,
}
use xenopus.Runtime.Approval.Bindings
use xenopus.Runtime.Approval.Bindings.{Call, IsValid, perform-IsValid}
use xenopus.Persistence.Approvals
use xenopus.Persistence.Approvals.{
  StoreError, approval_error, integrity_error, ApprovalStore, Answer, open_store, row_or_unknown,
  get, set_status, update_status, with_row, if_pending, if_granted,
}

unfoldable pub perform : Call → ApprovalStore → Answer × ApprovalStore
perform (Call.create t s h r v n) = Approvals.create t s h r v n
perform (Call.grant i) = Approvals.grant i
perform (Call.deny i) = Approvals.deny i
perform (Call.resolve i h s n) = Approvals.resolve i h s n

-- The store that holds what a ledger holds, and its answer for the ledger's
unfoldable pub stored : ApprovalLedger → ApprovalStore
stored l = record { table = l.requests; counter = l.counter }

abbrev pub lifted : Result ApprovalError ApprovalRequest → Answer
lifted (ok row) = ok row
lifted (err e) = err (approval_error e)

-- `UPDATE` of the row that is there is the ledger's write.
set_status-insert :
    (k : String) (st : ApprovalStatus) (r : ApprovalRequest) (d : Dict ApprovalRequest)
    → lookup k d ≡ some r
    → set_status k st d ≡ insert k (record r { status = st }) d
unfolding lookup insert set_status
set_status-insert k st r [] h = cc
set_status-insert k st r ((j, q) ∷ d) h = elim (Bool-cases (str_eq j k)) [
  | inl e ↦ let same : q ≡ r = ground (arith, rw e at h) in rw (e, same) refl
  | inr e ↦ rw e (ap (◌∷◌ (j, q)) (set_status-insert k st r d (rw e at h)))
]

lookup-set_status :
    (k : String) (st : ApprovalStatus) (r : ApprovalRequest) (d : Dict ApprovalRequest)
    → lookup k d ≡ some r
    → lookup k (set_status k st d) ≡ some (record r { status = st })
unfolding lookup set_status
lookup-set_status k st r [] h = cc
lookup-set_status k st r ((j, q) ∷ d) h = ground (arith, lookup-set_status k st r d)

insert-append :
    (k : String) (r : ApprovalRequest) (d : Dict ApprovalRequest)
    → lookup k d ≡ none
    → (insert k r d ≡ d ++ (k, r) ∷ []) × (has k d ≡ false) × (lookup k (d ++ (k, r) ∷ []) ≡ some r)
unfolding lookup insert has
insert-append k r [] h = (refl, refl, rw ((str_eq_iff k k).1 refl) refl)
insert-append k r ((j, q) ∷ d) h = elim (Bool-cases (str_eq j k)) [
  | inl e ↦ cc (rw e at h)
  | inr e ↦
      let (a, b, c) = insert-append k r d (rw e at h) in (rw e (ap (◌∷◌ (j, q)) a), rw e b, rw e c)
]

module _ (k : String) (r : ApprovalRequest) (l : ApprovalLedger)
    (found : lookup k l.requests ≡ some r) (named : r.request_id ≡ k) where
  update_status-stored :
      (st : ApprovalStatus)
      → update_status k st (stored l) ≡ (ok (update r st l).0, stored (update r st l).1)
  unfolding update_status get update stored
  update_status-stored st =
      rw
        (
          lookup-set_status k st r l.requests found,
          set_status-insert k st r l.requests found,
          named,
        )
        refl

  decide-stored :
      (now st : ApprovalStatus)
      → if_pending now k st (stored l)
        ≡ (lifted (decide_pending now st r l).0, stored (decide_pending now st r l).1)
  unfolding decide_pending
  decide-stored pending st = update_status-stored st
  decide-stored granted st = refl
  decide-stored denied st = refl
  decide-stored expired st = refl

  validate-stored :
      (current : ApprovalStatus) (hash subject : String) (now : ℕ)
      → if_granted current k hash subject now r (stored l) ≡ (
        lifted (validate current hash subject now r l).0,
        stored (validate current hash subject now r l).1,
      )
  unfolding validate
  validate-stored granted hash subject now = elim (Bool-cases (ltb r.expires_at now)) [
    | inl e ↦ rw (e, update_status-stored expired) refl
    | inr e ↦ rw e (elim (Bool-cases (str_eq r.subject subject)) [
      | inl a ↦ rw a (elim (Bool-cases (str_eq r.action_hash_value hash)) [
        | inl b ↦ rw b refl
        | inr b ↦ rw b refl
      ])
      | inr a ↦ rw a refl
    ])
  ]
  validate-stored pending hash subject now = refl
  validate-stored denied hash subject now = refl
  validate-stored expired hash subject now = refl

with_stored :
    (k : String) (l : ApprovalLedger) (f : ApprovalRequest → ApprovalStore → Answer × ApprovalStore)
    (g : ApprovalRequest → ApprovalLedger → Result ApprovalError ApprovalRequest × ApprovalLedger)
    → ((r : ApprovalRequest)
        → lookup k l.requests ≡ some r
        → f r (stored l) ≡ (lifted (g r l).0, stored (g r l).1))
    → with_row (get k (stored l)) f (stored l)
      ≡ (lifted (with_required (require k l) g l).0, stored (with_required (require k l) g l).1)
unfolding get require stored
with_stored k l f g h = elim (Option-cases (lookup k l.requests)) [
  | inl e ↦ rw e refl
  | inr (r, e) ↦ rw e (h r e)
]

create-stored :
    (t s h r : String) (v n : ℕ) (l : ApprovalLedger)
    → lookup (request_name (l.counter + 1)) l.requests ≡ none
    → Approvals.create t s h r v n (stored l)
      ≡ (lifted (Approval.create t s h r v n l).0, stored (Approval.create t s h r v n l).1)
unfolding Approvals.create Approval.create get stored
create-stored t s h r v n l free =
    let row : ApprovalRequest = record {
      request_id = request_name (l.counter + 1);
      action_hash_value = h;
      tool = t;
      subject = s;
      reason = r;
      created_at = n;
      expires_at = n + v;
      status = pending;
    } in
    let (same, new_key, there) = insert-append (request_name (l.counter + 1)) row l.requests free in
    elim (Bool-cases (leb v 0)) [ inl e ↦ rw e refl | inr e ↦ rw (e, new_key, there, same) refl ]

perform-stored :
    (c : Call) (l : ApprovalLedger)
    → IsValid l
    → perform c (stored l) ≡ (lifted (Bindings.perform c l).0, stored (Bindings.perform c l).1)
unfolding perform Bindings.perform Approvals.grant Approvals.deny Approvals.resolve Approval.grant
    Approval.deny Approval.resolve
perform-stored (Call.create t s h r v n) l valid =
    create-stored t s h r v n l (valid.fresh (l.counter + 1) (omega arith))
perform-stored (Call.grant k) l valid =
    with_stored k l _ _ (λ r e. decide-stored k r l e (valid.keyed k r e) r.status granted)
perform-stored (Call.deny k) l valid =
    with_stored k l _ _ (λ r e. decide-stored k r l e (valid.keyed k r e) r.status denied)
perform-stored (Call.resolve k h s n) l valid =
    with_stored k l _ _ (λ r e. validate-stored k r l e (valid.keyed k r e) r.status h s n)

-- Calls one after the other, with their answers
unfoldable pub run : List Call → ApprovalStore → List Answer × ApprovalStore
unfolding perform
run [] store = ([], store)
run (c ∷ cs) store =
    let (answer, store') = perform c store in
    let (answers, store'') = run cs store' in (answer ∷ answers, store'')

unfoldable pub run_ledger :
    List Call → ApprovalLedger → List (Result ApprovalError ApprovalRequest) × ApprovalLedger
run_ledger [] l = ([], l)
run_ledger (c ∷ cs) l =
    let (answer, l') = Bindings.perform c l in
    let (answers, l'') = run_ledger cs l' in (answer ∷ answers, l'')

-- From a well-formed ledger, as an empty one is, and the store that holds the same, any sequence of
-- calls of `create`, `grant`, `deny` and `resolve` gets the same answers from both, and leaves them
-- holding the same.
pub run-stored :
    (cs : List Call) (l : ApprovalLedger)
    → IsValid l
    → run cs (stored l) ≡ (map lifted (run_ledger cs l).0, stored (run_ledger cs l).1)
unfolding run run_ledger
run-stored [] l valid = refl
run-stored (c ∷ cs) l valid =
    rw
      (perform-stored c l valid, run-stored cs (Bindings.perform c l).1 (perform-IsValid c l valid))
      refl
