-- ===== src/Skills/Registry/Tests.antt =====
-- A table with one skill.
use xenopus.Prelude.{◌≡◌, refl, some, [], ◌∷◌, arith}
use xenopus.Prelude.Dict.{lookup}
use xenopus.Skills.Gate.{
  SkillRecord, SkillEvaluation, SkillSchema, evaluated, trusted, degraded, success_rate,
}
use xenopus.Skills.Registry.{SkillTable}
use xenopus.Skills.Registry.Evidence.{advance_stage, perform, Follows, perform-Follows}
use xenopus.Skills.Registry.Regain.{regain, degraded-regains}

abbrev good_run : SkillEvaluation
good_run = record { ran_at = 5; successes = 9; failures = 1; corrections = 0; retries = 0 }

abbrev grep : SkillSchema
grep = record {
  name = "grep";
  description = "";
  trigger = "";
  procedure = "run" ∷ [];
  constraints = [];
  examples = [];
  failure_modes = [];
  success_criteria = "found" ∷ [];
}

abbrev fallen : SkillRecord
fallen = record {
  skill_id = "skill-1";
  schema = grep;
  stage = degraded;
  version = 1;
  created_at = 1;
  provenance = "test";
  evaluations = good_run ∷ good_run ∷ good_run ∷ [];
  trusted_at = some 7;
}

abbrev table : SkillTable
table = ("skill-1", fallen) ∷ []

found : lookup "skill-1" table ≡ some fallen
unfolding lookup
found = refl

perform-Follows_example :
    (q : SkillRecord) × (lookup "skill-1" (perform (advance_stage "skill-1" evaluated 9) table)
      ≡ some q)
    × Follows fallen q
perform-Follows_example =
    perform-Follows (advance_stage "skill-1" evaluated 9) "skill-1" table fallen tt found

degraded-regains_example :
    lookup "skill-1" (regain "skill-1" 9 table)
    ≡ some (record fallen { stage = trusted; trusted_at = some 9 })
unfolding success_rate
degraded-regains_example = degraded-regains "skill-1" 9 table fallen found refl (omega arith) refl
