-- ===== src/Runtime/Permission/Decisions.antt =====
-- What `PermissionEngine.decide` returns.
use xenopus.Prelude.{
  ◌≡◌, refl, true, false, ◌⊎◌, inl, inr, ◌↔◌, List, [], ◌∷◌, ◌++◌, ok, arith, All, if◌then◌else◌,
  Bool-cases,
}
use xenopus.Runtime.Permission.{
  PermissionDecision, PermissionRequest, PermissionRule, PermissionEngine, allow, deny, matches,
  decide, check, add_rule,
}

-- The rule that decides: the rules before it do not match.
pub record FirstMatch (engine : PermissionEngine) (request : PermissionRequest)
    (decision : PermissionDecision) : Type 0 where
  pub before : List PermissionRule
  pub rule : PermissionRule
  pub after : List PermissionRule
  pub split : engine ≡ before ++ rule ∷ after
  pub skipped : All (λ r. matches r request ≡ false) before
  pub matched : matches rule request ≡ true
  pub decides : rule.decision ≡ decision

cons_FirstMatch :
    (r : PermissionRule) {engine : PermissionEngine} {request : PermissionRequest}
    {d : PermissionDecision}
    → matches r request ≡ false
    → FirstMatch engine request d
    → FirstMatch (r ∷ engine) request d
cons_FirstMatch r miss f = record {
  before = r ∷ f.before;
  rule = f.rule;
  after = f.after;
  split = cc (f.split);
  skipped = (miss, f.skipped);
  matched = f.matched;
  decides = f.decides;
}

-- Either no rule matches and the request is denied, or the first rule that matches decides.
pub decide_cases :
    (engine : PermissionEngine) (request : PermissionRequest)
    → All (λ r. matches r request ≡ false) engine × (decide engine request ≡ deny)
      ⊎ FirstMatch engine request (decide engine request)
unfolding decide
decide_cases [] request = inl (tt, refl)
decide_cases (rule ∷ rules) request = elim (Bool-cases (matches rule request)) [
  | inl hit ↦ rw hit (
      inr (record {
        before = [];
        rule = rule;
        after = rules;
        split = refl;
        skipped = tt;
        matched = hit;
        decides = refl;
      }))
  | inr miss ↦ rw miss (elim (decide_cases rules request) [
    | inl (none_match, denied) ↦ inl ((refl, none_match), denied)
    | inr f ↦ inr (cons_FirstMatch rule miss f)
  ])
]

-- A prepended rule decides every request that it matches, and changes no other answer.
pub decide-add_rule_prepend :
    (rule : PermissionRule) (engine : PermissionEngine) (request : PermissionRequest)
    → decide (add_rule rule true engine) request
      ≡ (if matches rule request then rule.decision else decide engine request)
unfolding decide add_rule
decide-add_rule_prepend rule engine request = refl

-- An appended rule decides a request only if no rule that was there before matches it; if one does,
-- the answer stays what it was.
pub decide-add_rule_append :
    (rule : PermissionRule) (engine : PermissionEngine) (request : PermissionRequest)
    → (All (λ r. matches r request ≡ false) engine
        × (decide (add_rule rule false engine) request
            ≡ (if matches rule request then rule.decision else deny)))
      ⊎ (decide (add_rule rule false engine) request ≡ decide engine request)
unfolding decide add_rule
decide-add_rule_append rule [] request = inl (tt, refl)
decide-add_rule_append rule (r ∷ rs) request = elim (Bool-cases (matches r request)) [
  | inl hit ↦ rw hit (inr refl)
  | inr miss ↦ rw miss (elim (decide-add_rule_append rule rs request) [
    | inl (none_match, e) ↦ inl ((refl, none_match), e)
    | inr e ↦ inr e
  ])
]

-- `check` returns exactly for the requests that are allowed: ASK raises as DENY does.
pub check_ok_iff :
    (engine : PermissionEngine) (request : PermissionRequest)
    → (check engine request ≡ ok tt) ↔ (decide engine request ≡ allow)
unfolding check
check_ok_iff engine request = (λ h. ground arith, λ h. ground arith)
