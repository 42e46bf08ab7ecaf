-- ===== src/Runtime/Approval/Resolve.antt =====
-- When `ApprovalLedger.resolve` accepts an approval, and what it does when it does not.
use xenopus.Prelude.{
  ℕ, ◌≤◌, ◌<◌, ◌≡◌, ◌≢◌, some, String, ok, err, arith, str_eq_iff, Option-cases, inl, inr,
}
use xenopus.Prelude.Dict.{lookup, lookup-insert}
use xenopus.Runtime.Approval.{
  granted, expired, ApprovalRequest, not_granted, has_expired, ApprovalLedger, update, validate,
  resolve,
}

-- A request that authorises the action with this hash for this subject, at this time.
pub record Authorises (r : ApprovalRequest) (hash subject : String) (now : ℕ) : Type 0 where
  pub granted_status : r.status ≡ granted
  pub in_time : now ≤ r.expires_at
  pub same_subject : r.subject ≡ subject
  pub same_action : r.action_hash_value ≡ hash

validate-Authorises :
    (r : ApprovalRequest) (hash subject : String) (now : ℕ) (l : ApprovalLedger)
    {r' : ApprovalRequest}
    → (validate r.status hash subject now r l).0 ≡ ok r'
    → (r' ≡ r) × Authorises r hash subject now × ((validate r.status hash subject now r l).1 ≡ l)
unfolding validate
validate-Authorises r hash subject now l h =
    ground (arith, str_eq_iff r.subject subject, str_eq_iff r.action_hash_value hash)

-- An approval that resolves is the stored request, which was granted, has not expired and is bound
-- to this subject and this action hash; the ledger stays as it was.
pub resolve-Authorises :
    (request_id hash subject : String) (now : ℕ) (l : ApprovalLedger) {r : ApprovalRequest}
    → (resolve request_id hash subject now l).0 ≡ ok r
    → (lookup request_id l.requests ≡ some r)
      × Authorises r hash subject now
      × ((resolve request_id hash subject now l).1 ≡ l)
unfolding resolve
resolve-Authorises request_id hash subject now l h =
    elim (Option-cases (lookup request_id l.requests)) [
      | inl missing ↦ cc (rw missing at h)
      | inr (q, found) ↦ rw found (go q (rw found at h))
    ]
  where
    go :
        (q : ApprovalRequest) {r : ApprovalRequest}
        → (validate q.status hash subject now q l).0 ≡ ok r
        → (some q ≡ some r)
          × Authorises r hash subject now
          × ((validate q.status hash subject now q l).1 ≡ l)
    go q k =
        let (same, auth, kept) = validate-Authorises q hash subject now l k in
        (cc same, rw same auth, kept)

-- A stored request that authorises the action resolves: the ledger refuses nothing else.
pub Authorises-resolve :
    (request_id hash subject : String) (now : ℕ) (l : ApprovalLedger) (r : ApprovalRequest)
    → lookup request_id l.requests ≡ some r
    → Authorises r hash subject now
    → resolve request_id hash subject now l ≡ (ok r, l)
unfolding resolve
Authorises-resolve request_id hash subject now l r found a =
    ground (arith, str_eq_iff r.subject subject, str_eq_iff r.action_hash_value hash)

-- A granted request that is presented after its deadline is refused, and is marked EXPIRED in the
-- ledger, so that it never resolves again.
pub resolve-expired :
    (request_id hash subject : String) (now : ℕ) (l : ApprovalLedger) (r : ApprovalRequest)
    → lookup request_id l.requests ≡ some r
    → r.request_id ≡ request_id
    → r.status ≡ granted
    → r.expires_at < now
    → ((resolve request_id hash subject now l).0 ≡ err has_expired)
      × (lookup request_id (resolve request_id hash subject now l).1.requests
          ≡ some (record r { status = expired }))
unfolding resolve update
resolve-expired request_id hash subject now l r found named g late = ground (
  arith,
  lookup-insert r.request_id request_id (record r { status = expired }) l.requests,
  str_eq_iff r.request_id request_id,
)

-- A request that is not granted is refused with its status, whatever is presented.
pub resolve-not_granted :
    (request_id hash subject : String) (now : ℕ) (l : ApprovalLedger) (r : ApprovalRequest)
    → lookup request_id l.requests ≡ some r
    → r.status ≢ granted
    → resolve request_id hash subject now l ≡ (err (not_granted r.status), l)
unfolding resolve
resolve-not_granted request_id hash subject now l r found g = ground arith
