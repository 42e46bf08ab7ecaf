-- ===== src/Runtime/Approval/Bindings.antt =====
-- What no method of the ledger changes: the requests that are there, and what they are bound to.
use xenopus.Prelude.{
  ℕ, ◌+◌, ◌<◌, ◌≡◌, ap, none, some, String, arith, str_eq_iff, Option-cases, inl, inr, Result,
}
use xenopus.Prelude.Decimal.{padded-injective}
use xenopus.Prelude.Dict.{lookup, lookup-insert}
use xenopus.Runtime.Approval
use xenopus.Runtime.Approval.{
  ApprovalStatus, pending, granted, denied, expired, ApprovalRequest, ApprovalError, ApprovalLedger,
  new, request_name, require, update, decide_pending, validate, with_required,
}

-- One call of a method, at the clock's time. Time passes as the caller's clock says.
pub data Call : Type 0 where
  create : (tool subject action_hash_value reason : String) (validity now : ℕ) → Call
  grant deny : String → Call
  resolve : (request_id action_hash_value subject : String) (now : ℕ) → Call

unfoldable pub perform :
    Call → ApprovalLedger → Result ApprovalError ApprovalRequest × ApprovalLedger
perform (create t s h r v n) = Approval.create t s h r v n
perform (grant i) = Approval.grant i
perform (deny i) = Approval.deny i
perform (resolve i h s n) = Approval.resolve i h s n

-- Every request stands under its own id, and the ids were made by the counter.
pub record IsValid (l : ApprovalLedger) : Type 0 where
  pub keyed : (k : String) (r : ApprovalRequest) → lookup k l.requests ≡ some r → r.request_id ≡ k
  pub fresh : (n : ℕ) → l.counter < n → lookup (request_name n) l.requests ≡ none

-- What a request is bound to.
pub record SameBinding (r q : ApprovalRequest) : Type 0 where
  pub request_id : r.request_id ≡ q.request_id
  pub action_hash_value : r.action_hash_value ≡ q.action_hash_value
  pub tool : r.tool ≡ q.tool
  pub subject : r.subject ≡ q.subject
  pub created_at : r.created_at ≡ q.created_at
  pub expires_at : r.expires_at ≡ q.expires_at

tail5 : String → String
tail5 (String.◌∷◌ _ (String.◌∷◌ _ (String.◌∷◌ _ (String.◌∷◌ _ (String.◌∷◌ _ s))))) = s
tail5 s = s

request_name-injective : (n m : ℕ) → request_name n ≡ request_name m → n ≡ m
unfolding request_name tail5
request_name-injective n m e = padded-injective 6 n m (ap tail5 e)

update-IsValid :
    (r : ApprovalRequest) (s : ApprovalStatus) (l : ApprovalLedger)
    → lookup r.request_id l.requests ≡ some r
    → IsValid l
    → IsValid (update r s l).1
unfolding update
update-IsValid r s l found v = record {
  keyed = λ k q h. ground (
    arith,
    lookup-insert r.request_id k (record r { status = s }) l.requests,
    str_eq_iff r.request_id k,
    v.keyed k q,
  );
  fresh = λ n h. ground (
    arith,
    lookup-insert r.request_id (request_name n) (record r { status = s }) l.requests,
    str_eq_iff r.request_id (request_name n),
    v.fresh n h,
  );
}

create-IsValid :
    (tool subject hash reason : String) (validity now : ℕ) (l : ApprovalLedger)
    → IsValid l
    → IsValid (Approval.create tool subject hash reason validity now l).1
unfolding Approval.create
create-IsValid tool subject hash reason validity now l v =
    let q : ApprovalRequest = record {
      request_id = request_name (l.counter + 1);
      action_hash_value = hash;
      tool = tool;
      subject = subject;
      reason = reason;
      created_at = now;
      expires_at = now + validity;
      status = pending;
    } in
    record {
      keyed = λ k r h. ground (
        arith,
        lookup-insert q.request_id k q l.requests,
        str_eq_iff q.request_id k,
        v.keyed k r,
      );
      fresh = λ n h. ground (
        arith,
        lookup-insert q.request_id (request_name n) q l.requests,
        str_eq_iff q.request_id (request_name n),
        v.fresh n,
        request_name-injective (l.counter + 1) n,
      );
    }

decide_pending-IsValid :
    (status : ApprovalStatus) (r : ApprovalRequest) (l : ApprovalLedger)
    → lookup r.request_id l.requests ≡ some r
    → IsValid l
    → IsValid (decide_pending r.status status r l).1
unfolding decide_pending
decide_pending-IsValid status r l found v = ground (arith, update-IsValid r status l found v)

validate-IsValid :
    (hash subject : String) (now : ℕ) (r : ApprovalRequest) (l : ApprovalLedger)
    → lookup r.request_id l.requests ≡ some r
    → IsValid l
    → IsValid (validate r.status hash subject now r l).1
unfolding validate
validate-IsValid hash subject now r l found v = ground (arith, update-IsValid r expired l found v)

-- With the request that `_require` finds.
module _ (P : ApprovalLedger → Type 0) (k : String) (l : ApprovalLedger)
    (f : ApprovalRequest
      → ApprovalLedger
      → Result ApprovalError ApprovalRequest × ApprovalLedger) where
  pub with_required_ind :
      P l
      → ((r : ApprovalRequest) → lookup k l.requests ≡ some r → P (f r l).1)
      → P (with_required (require k l) f l).1
  unfolding require
  with_required_ind none_case some_case = elim (Option-cases (lookup k l.requests)) [
    | inl missing ↦ rw missing none_case
    | inr (r, found) ↦ rw found (some_case r found)
  ]

-- Every method, returning or raising, keeps the ledger well formed.
pub perform-IsValid : (c : Call) (l : ApprovalLedger) → IsValid l → IsValid (perform c l).1
unfolding perform Approval.grant Approval.deny Approval.resolve
perform-IsValid (create t s h r v n) l valid = create-IsValid t s h r v n l valid
perform-IsValid (grant k) l valid =
    with_required_ind IsValid k l _ valid
      λ r found. decide_pending-IsValid granted r l (cc (found, valid.keyed k r found)) valid
perform-IsValid (deny k) l valid =
    with_required_ind IsValid k l _ valid
      λ r found. decide_pending-IsValid denied r l (cc (found, valid.keyed k r found)) valid
perform-IsValid (resolve k h s n) l valid =
    with_required_ind IsValid k l _ valid
      λ r found. validate-IsValid h s n r l (cc (found, valid.keyed k r found)) valid
