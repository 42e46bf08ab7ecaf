-- ===== src/Runtime/Approval/Histories.antt =====
-- What holds of a request over any sequence of calls of the ledger's methods.
use xenopus.Prelude.{
  ℕ, ◌+◌, ◌≡◌, refl, some, String, arith, str_eq, str_eq_iff, Bool-cases, inl, inr, ltb, ◌∙◌,
}
use xenopus.Prelude.Dict.{lookup, lookup-insert}
use xenopus.Runtime.Approval
use xenopus.Runtime.Approval.{
  ApprovalStatus, pending, granted, denied, expired, ApprovalRequest, ApprovalError, ApprovalLedger,
  new, request_name, require, update, decide_pending, validate,
}
use xenopus.Runtime.Approval.Bindings.{
  Call, create, grant, deny, resolve, perform, IsValid, SameBinding, with_required_ind,
}

-- How a call may change the status of the request `k`.
pub data StatusStep (k : String) : Call → ApprovalStatus → ApprovalStatus → Type 0 where
  same : {c : Call} {s : ApprovalStatus} → StatusStep k c s s
  granting : StatusStep k (grant k) pending granted
  denying : StatusStep k (deny k) pending denied
  expiring : {h s : String} {n : ℕ} → StatusStep k (resolve k h s n) granted expired

-- The request that stands under `k` after a call on the ledger `l`.
pub record Kept (k : String) (c : Call) (r : ApprovalRequest) (l : ApprovalLedger) : Type 0 where
  pub request : ApprovalRequest
  pub stored : lookup k l.requests ≡ some request
  pub binding : SameBinding r request
  pub status : StatusStep k c r.status request.status

module _ (k : String) (r : ApprovalRequest) (l : ApprovalLedger) (valid : IsValid l)
    (found : lookup k l.requests ≡ some r) where
  Kept-same : (c : Call) → Kept k c r l
  Kept-same c = record { request = r; stored = found; binding = ground arith; status = same }

  Kept-update :
      (c : Call) (j : String) (q : ApprovalRequest) (s : ApprovalStatus)
      → lookup j l.requests ≡ some q
      → (j ≡ k → StatusStep k c q.status s)
      → Kept k c r (update q s l).1
  unfolding update
  Kept-update c j q s there step =
      let looked = lookup-insert q.request_id k (record q { status = s }) l.requests in
      let named = valid.keyed j q there in
      elim (Bool-cases (str_eq q.request_id k)) [
        | inl e ↦
            let jk : j ≡ k = cc (named, (str_eq_iff q.request_id k).0 e) in
            let qr : q ≡ r = ground (arith, rw jk at there) in
            record {
              request = record q { status = s };
              stored = rw e at looked;
              binding = ground arith;
              status = rw (← qr) (step jk);
            }
        | inr e ↦ record {
          request = r;
          stored = (rw e at looked) ∙ found;
          binding = ground arith;
          status = same;
        }
      ]

  Kept-create :
      (tool subject hash reason : String) (validity now : ℕ)
      → Kept k
          (create tool subject hash reason validity now)
          r
          (Approval.create tool subject hash reason validity now l).1
  unfolding Approval.create
  Kept-create tool subject hash reason validity now =
      let q : ApprovalRequest = record {
        request_id = request_name (l.counter + 1);
        action_hash_value = hash;
        tool = tool;
        subject = subject;
        reason = reason;
        created_at = now;
        expires_at = now + validity;
        status = pending;
      } in
      record {
        request = r;
        stored = ground (
          arith,
          lookup-insert q.request_id k q l.requests,
          str_eq_iff q.request_id k,
          valid.fresh (l.counter + 1),
          found,
        );
        binding = ground arith;
        status = same;
      }

  Kept-decide :
      (c : Call) (j : String) (q : ApprovalRequest) (s : ApprovalStatus)
      → lookup j l.requests ≡ some q
      → (j ≡ k → StatusStep k c pending s)
      → Kept k c r (decide_pending q.status s q l).1
  unfolding decide_pending
  Kept-decide c j q s there step = go q.status refl
    where
      go : (t : ApprovalStatus) → q.status ≡ t → Kept k c r (decide_pending t s q l).1
      go pending e = Kept-update c j q s there (λ p. rw e (step p))
      go _ e = Kept-same c

  Kept-validate :
      (j hash subject : String) (now : ℕ) (q : ApprovalRequest)
      → lookup j l.requests ≡ some q
      → Kept k (resolve j hash subject now) r (validate q.status hash subject now q l).1
  unfolding validate
  Kept-validate j hash subject now q there = go q.status refl
    where
      go :
          (t : ApprovalStatus)
          → q.status ≡ t
          → Kept k (resolve j hash subject now) r (validate t hash subject now q l).1
      go granted e = elim (Bool-cases (ltb q.expires_at now)) [
        | inl late ↦ rw late (Kept-update _ j q expired there (λ p. rw (e, p) expiring))
        | inr in_time ↦ rw in_time (elim (Bool-cases (str_eq q.subject subject)) [
          | inl a ↦ rw a (elim (Bool-cases (str_eq q.action_hash_value hash)) [
            | inl b ↦ rw b (Kept-same _)
            | inr b ↦ rw b (Kept-same _)
          ])
          | inr a ↦ rw a (Kept-same _)
        ])
      ]
      go _ e = Kept-same _

  -- What a stored request is bound to never changes, and its status moves from PENDING to GRANTED or
  -- DENIED by the call that says so, and from GRANTED to EXPIRED when it is resolved.
  pub perform-Kept : (c : Call) → Kept k c r (perform c l).1
  unfolding perform Approval.grant Approval.deny Approval.resolve
  perform-Kept (create t s h q v n) = Kept-create t s h q v n
  perform-Kept (grant j) =
      with_required_ind (Kept k (grant j) r) j l _ (Kept-same (grant j))
        λ q there. Kept-decide (grant j) j q granted there (λ p. rw p granting)
  perform-Kept (deny j) =
      with_required_ind (Kept k (deny j) r) j l _ (Kept-same (deny j))
        λ q there. Kept-decide (deny j) j q denied there (λ p. rw p denying)
  perform-Kept (resolve j h s n) =
      with_required_ind (Kept k (resolve j h s n) r) j l _ (Kept-same (resolve j h s n))
        λ q there. Kept-validate j h s n q there
