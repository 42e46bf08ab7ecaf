-- ===== src/Runtime/Approval/Grants.antt =====
-- Where a granted request comes from, over any sequence of calls of the ledger's methods.
use mathlib.Core.List.{Memᴰ}
use xenopus.Prelude.{
  ℕ, ◌+◌, ◌≡◌, refl, sym, none, some, String, ok, arith, str_eq_iff, Option-cases, inl, inr, List,
  [], ◌∷◌, ◌⊎◌,
}
use xenopus.Prelude.Dict.{lookup, lookup-insert}
use xenopus.Runtime.Approval
use xenopus.Runtime.Approval.{
  ApprovalStatus, pending, granted, denied, expired, ApprovalRequest, ApprovalLedger, new,
  request_name, update, decide_pending, validate,
}
use xenopus.Runtime.Approval.Bindings.{
  Call, create, grant, deny, resolve, perform, IsValid, perform-IsValid, with_required_ind,
}
use xenopus.Runtime.Approval.Histories.{StatusStep, same, granting, denying, expiring, perform-Kept}
use xenopus.Runtime.Approval.Resolve.{resolve-Authorises}

-- What stands under `k`, if anything does, is pending.
abbrev AtMostPending : String → ApprovalLedger → Type 0
AtMostPending k l = (q : ApprovalRequest) → lookup k l.requests ≡ some q → q.status ≡ pending

module _ (k : String) (l : ApprovalLedger) (valid : IsValid l)
    (absent : lookup k l.requests ≡ none) where
  absent_same : AtMostPending k l
  absent_same q h = cc (absent, h)

  absent_update :
      (j : String) (r : ApprovalRequest) (s : ApprovalStatus)
      → lookup j l.requests ≡ some r
      → AtMostPending k (update r s l).1
  unfolding update
  absent_update j r s there q h = ground (
    arith,
    lookup-insert r.request_id k (record r { status = s }) l.requests,
    str_eq_iff r.request_id k,
    valid.keyed j r there,
    absent,
  )

  absent_decide :
      (j : String) (r : ApprovalRequest) (s : ApprovalStatus)
      → lookup j l.requests ≡ some r
      → AtMostPending k (decide_pending r.status s r l).1
  unfolding decide_pending
  absent_decide j r s there q h = ground (arith, absent_update j r s there q, absent_same q)

  absent_validate :
      (j hash subject : String) (now : ℕ) (r : ApprovalRequest)
      → lookup j l.requests ≡ some r
      → AtMostPending k (validate r.status hash subject now r l).1
  unfolding validate
  absent_validate j hash subject now r there q h =
      ground (arith, absent_update j r expired there q, absent_same q)

  absent_create :
      (tool subject hash reason : String) (validity now : ℕ)
      → AtMostPending k (Approval.create tool subject hash reason validity now l).1
  unfolding Approval.create
  absent_create tool subject hash reason validity now q h =
      let p : ApprovalRequest = record {
        request_id = request_name (l.counter + 1);
        action_hash_value = hash;
        tool = tool;
        subject = subject;
        reason = reason;
        created_at = now;
        expires_at = now + validity;
        status = pending;
      } in
      ground (arith, lookup-insert p.request_id k p l.requests, absent_same q)

  absent_perform : (c : Call) → AtMostPending k (perform c l).1
  unfolding perform Approval.grant Approval.deny Approval.resolve
  absent_perform (create t s h q v n) = absent_create t s h q v n
  absent_perform (grant j) =
      with_required_ind (AtMostPending k) j l _ absent_same
        λ q there. absent_decide j q granted there
  absent_perform (deny j) =
      with_required_ind (AtMostPending k) j l _ absent_same
        λ q there. absent_decide j q denied there
  absent_perform (resolve j h s n) =
      with_required_ind (AtMostPending k) j l _ absent_same
        λ q there. absent_validate j h s n q there

step_into_granted :
    {k : String} {c : Call} {s t : ApprovalStatus}
    → StatusStep k c s t
    → t ≡ granted
    → (c ≡ grant k) ⊎ (s ≡ granted)
step_into_granted same e = inr e
step_into_granted granting e = inl refl
step_into_granted denying e = cc
step_into_granted expiring e = cc

-- A ledger, and the calls that made it from the empty one, the latest first.
pub data Past : List Call → ApprovalLedger → Type 0 where
  start : Past [] new
  after :
      {cs : List Call} {l : ApprovalLedger} → Past cs l → (c : Call) → Past (c ∷ cs) (perform c l).1

pub Past-IsValid : {cs : List Call} {l : ApprovalLedger} → Past cs l → IsValid l
unfolding new lookup
Past-IsValid start = record { keyed = λ k r h. cc; fresh = λ n h. refl }
Past-IsValid (after {l} p c) = perform-IsValid c l (Past-IsValid p)

granted-Memᴰ :
    {cs : List Call} {l : ApprovalLedger} (k : String) (q : ApprovalRequest)
    → Past cs l
    → lookup k l.requests ≡ some q
    → q.status ≡ granted
    → Memᴰ (grant k) cs
unfolding new lookup
granted-Memᴰ k q start h g = cc
granted-Memᴰ k q (after {l} p c) h g = elim (Option-cases (lookup k l.requests)) [
  | inl absent ↦ cc (g, absent_perform k l (Past-IsValid p) absent c q h)
  | inr (r, found) ↦
      let kept = perform-Kept k r l (Past-IsValid p) found c in
      elim (step_into_granted kept.status (ground (arith, kept.stored))) [
        | inl e ↦ Memᴰ.head (sym e)
        | inr e ↦ Memᴰ.tail (granted-Memᴰ k r p found e)
      ]
]

-- Whatever the methods were called with before, an approval resolves only if it was granted: among
-- the calls there is a `grant` of this very id.
pub resolve-needs-grant :
    {cs : List Call} {l : ApprovalLedger} (k hash subject : String) (now : ℕ) {r : ApprovalRequest}
    → Past cs l
    → (Approval.resolve k hash subject now l).0 ≡ ok r
    → Memᴰ (grant k) cs
resolve-needs-grant {l} k hash subject now {r} p h =
    let (found, a, _) = resolve-Authorises k hash subject now l h in
    granted-Memᴰ k r p found a.granted_status
