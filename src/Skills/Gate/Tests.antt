-- ===== src/Skills/Gate/Tests.antt =====
-- The gate at one record.
use xenopus.Prelude.{◌≡◌, refl, false, none, [], ◌∷◌}
use xenopus.Skills.Gate.{
  SkillRecord, SkillEvaluation, experimental, degraded, check, gate, is_in, legal_skill_transitions,
  post_trust_evaluations,
}

abbrev bad_run : SkillEvaluation
bad_run = record { ran_at = 5; successes = 0; failures = 9; corrections = 0; retries = 0 }

abbrev trial : SkillRecord
trial = record {
  skill_id = "skill-1";
  schema = record {
    name = "grep";
    description = "";
    trigger = "";
    procedure = "run" ∷ [];
    constraints = [];
    examples = [];
    failure_modes = [];
    success_criteria = "found" ∷ [];
  };
  stage = experimental;
  version = 1;
  created_at = 1;
  provenance = "test";
  evaluations = bad_run ∷ bad_run ∷ [];
  trusted_at = none;
}

-- Two bad runs do not degrade a skill on trial.
trial_stays : (check trial degraded).allowed ≡ false
unfolding check gate is_in legal_skill_transitions post_trust_evaluations
trial_stays = refl
