-- ===== src/Skills/Gate.antt =====
-- src/xenopus/skills/types.py: the stages of a skill and the gate between them. A success rate is the
-- fraction of two counts, compared by cross-multiplication; the float quotient agrees with it on the
-- thresholds 0.5, 0.75 and 0.4 as long as the counts stay below 2 ^ 50.
pub mod Thresholds
mod Tests
use mathlib.Core.Bool.{decide}
use xenopus.Prelude.{
  ℕ, ◌+◌, ◌*◌, Bool, true, false, ◌==◌, Option, none, some, List, [], ◌∷◌, String, Result, ok, err,
  ltb, leb, any, filter, length, is_empty, if◌then◌else◌,
}
use xenopus.Prelude.Strip.{strip, is_blank}

pub data SkillStage : Type 0 where
  candidate staged evaluated experimental trusted degraded superseded : SkillStage

pub SkillStage-discrete : Discrete SkillStage
SkillStage-discrete = hlevel

-- `t in stages`
unfoldable pub is_in : SkillStage → List SkillStage → Bool
unfolding SkillStage-discrete decide
is_in t stages = any (λ s. decide (SkillStage-discrete s t)) stages

-- LEGAL_SKILL_TRANSITIONS
unfoldable pub legal_skill_transitions : SkillStage → List SkillStage
legal_skill_transitions candidate = staged ∷ superseded ∷ []
legal_skill_transitions staged = evaluated ∷ candidate ∷ superseded ∷ []
legal_skill_transitions evaluated = experimental ∷ superseded ∷ []
legal_skill_transitions experimental = trusted ∷ degraded ∷ superseded ∷ []
legal_skill_transitions trusted = degraded ∷ superseded ∷ []
legal_skill_transitions degraded = evaluated ∷ superseded ∷ []
legal_skill_transitions superseded = []

pub record SkillSchema : Type 0 where
  pub name : String
  pub description : String
  pub trigger : String
  pub procedure : List String
  pub constraints : List String
  pub examples : List String
  pub failure_modes : List String
  pub success_criteria : List String

pub data SchemaError : Type 0 where
  empty_name no_procedure no_success_criteria : SchemaError

-- `SkillSchema.__post_init__`
unfoldable pub post_init : SkillSchema → Result SchemaError SkillSchema
unfolding strip
post_init schema =
    if is_blank (strip schema.name)
    then err empty_name
    else if is_empty schema.procedure
    then err no_procedure
    else if is_empty schema.success_criteria
    then err no_success_criteria
    else ok schema

pub record SkillEvaluation : Type 0 where
  pub ran_at : ℕ
  pub successes : ℕ
  pub failures : ℕ
  pub corrections : ℕ
  pub retries : ℕ

pub record SkillRecord : Type 0 where
  pub skill_id : String
  pub schema : SkillSchema
  pub stage : SkillStage
  pub version : ℕ
  pub created_at : ℕ
  pub provenance : String
  pub evaluations : List SkillEvaluation
  pub trusted_at : Option ℕ

-- `total_successes` and `total_failures`
unfoldable pub total_successes : List SkillEvaluation → ℕ
total_successes [] = 0
total_successes (e ∷ es) = e.successes + total_successes es

unfoldable pub total_failures : List SkillEvaluation → ℕ
total_failures [] = 0
total_failures (e ∷ es) = e.failures + total_failures es

-- A rate as its numerator and denominator; 0 where there was no run
abbrev pub rate_of : ℕ → ℕ → ℕ × ℕ
rate_of successes total = if total == 0 then (0, 1) else (successes, total)

-- `success_rate` over the evaluations given
unfoldable pub success_rate : List SkillEvaluation → ℕ × ℕ
unfolding total_successes total_failures
success_rate es = rate_of (total_successes es) (total_successes es + total_failures es)

-- `rate < n / d` and `rate > n / d`
abbrev pub is_below : ℕ × ℕ → ℕ → ℕ → Bool
is_below rate n d = ltb (rate.0 * d) (n * rate.1)

abbrev pub is_above : ℕ × ℕ → ℕ → ℕ → Bool
is_above rate n d = ltb (n * rate.1) (rate.0 * d)

abbrev since : Option ℕ → List SkillEvaluation → List SkillEvaluation
since none es = []
since (some t) es = filter (λ e. leb t e.ran_at) es

unfoldable pub post_trust_evaluations : SkillRecord → List SkillEvaluation
post_trust_evaluations r = since r.trusted_at r.evaluations

abbrev pub trust_min_evaluations : ℕ
trust_min_evaluations = 3

abbrev pub experimental_min_evaluations : ℕ
experimental_min_evaluations = 1

abbrev pub degrade_min_evaluations : ℕ
degrade_min_evaluations = 2

-- `PromotionCheck`, with the kind of its reason
pub data Reason : Type 0 where
  illegal no_evaluations too_few_evaluations rate_too_low rate_too_high : Reason
  evidence_present metrics_met thresholds_met regression_detected structural : Reason

pub record PromotionCheck : Type 0 where
  pub from_stage : SkillStage
  pub to_stage : SkillStage
  pub allowed : Bool
  pub reason : Reason

-- The metrics that a legal move to this stage needs
unfoldable pub gate : SkillStage → SkillRecord → Bool × Reason
unfolding success_rate post_trust_evaluations
gate evaluated r =
    if is_empty r.evaluations then (false, no_evaluations) else (true, evidence_present)
gate experimental r =
    if ltb (length r.evaluations) experimental_min_evaluations
    then (false, too_few_evaluations)
    else if is_below (success_rate r.evaluations) 1 2
    then (false, rate_too_low)
    else (true, metrics_met)
gate trusted r =
    if ltb (length r.evaluations) trust_min_evaluations
    then (false, too_few_evaluations)
    else if is_below (success_rate r.evaluations) 3 4
    then (false, rate_too_low)
    else (true, thresholds_met)
gate degraded r =
    if ltb (length (post_trust_evaluations r)) degrade_min_evaluations
    then (false, too_few_evaluations)
    else if is_above (success_rate (post_trust_evaluations r)) 2 5
    then (false, rate_too_high)
    else (true, regression_detected)
gate _ r = (true, structural)

-- `SkillLifecycleGate.check`
unfoldable pub check : SkillRecord → SkillStage → PromotionCheck
unfolding is_in legal_skill_transitions gate
check r target =
    let (allowed, reason) =
      if is_in target (legal_skill_transitions r.stage) then gate target r else (false, illegal) in
    record { from_stage = r.stage; to_stage = target; allowed = allowed; reason = reason }
