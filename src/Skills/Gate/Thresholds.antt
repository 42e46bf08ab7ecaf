-- ===== src/Skills/Gate/Thresholds.antt =====
-- What the gate asks of a skill before it moves.
use xenopus.Prelude.{
  ℕ, ◌≤◌, ◌≡◌, true, false, none, arith, length, length-filter-le, inl, inr, leb, Option-cases,
}
use xenopus.Skills.Gate.{
  SkillStage, candidate, staged, evaluated, experimental, trusted, degraded, superseded,
  SkillRecord, SkillEvaluation, gate, check, post_trust_evaluations, legal_skill_transitions, is_in,
}

-- The number of evaluations that stand behind a stage
abbrev pub min_evaluations : SkillStage → ℕ
min_evaluations candidate = 0
min_evaluations staged = 0
min_evaluations evaluated = 1
min_evaluations experimental = 1
min_evaluations trusted = 3
min_evaluations degraded = 2
min_evaluations superseded = 0

post_trust-le : (r : SkillRecord) → length (post_trust_evaluations r) ≤ length r.evaluations
unfolding post_trust_evaluations
post_trust-le r = elim (Option-cases r.trusted_at) [
  | inl e ↦ ground arith
  | inr (t, e) ↦
      ground (arith, length-filter-le (λ (x : SkillEvaluation). leb t x.ran_at) r.evaluations)
]

gate-min :
    (t : SkillStage) (r : SkillRecord)
    → (gate t r).0 ≡ true
    → min_evaluations t ≤ length r.evaluations
unfolding gate
gate-min candidate r h = omega arith
gate-min staged r h = omega arith
gate-min evaluated r h = ground arith
gate-min experimental r h = ground arith
gate-min trusted r h = ground arith
gate-min degraded r h = ground (arith, post_trust-le r)
gate-min superseded r h = omega arith

pub check-min :
    (t : SkillStage) (r : SkillRecord)
    → (check r t).allowed ≡ true
    → min_evaluations t ≤ length r.evaluations
unfolding check
check-min t r h = ground (arith, gate-min t r)

pub check-legal :
    (t : SkillStage) (r : SkillRecord)
    → (check r t).allowed ≡ true
    → is_in t (legal_skill_transitions r.stage) ≡ true
unfolding check
check-legal t r h = ground arith

-- A skill that was never trusted is never degraded, however badly its evaluations went: the gate
-- counts only evaluations since it became trusted, and there are none.
pub untrusted-no_degrade :
    (r : SkillRecord) → r.trusted_at ≡ none → (check r degraded).allowed ≡ false
unfolding check gate post_trust_evaluations
untrusted-no_degrade r h = ground arith
