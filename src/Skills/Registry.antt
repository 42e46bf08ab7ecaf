-- ===== src/Skills/Registry.antt =====
-- src/xenopus/skills/registry.py: the table of skills by their ids. A row is the record that
-- `_row_to_record` makes of it, so that the JSON of the definition and of the evaluations is what it
-- stands for; the fresh id and the clock's answer are arguments.
pub mod Evidence
pub mod Regain
mod Tests
use xenopus.Prelude.{
  ℕ, Bool, true, false, Option, none, some, List, [], ◌∷◌, ◌++◌, String, str_eq, Result, ok, err,
  any, if◌then◌else◌,
}
use xenopus.Prelude.Dict.{Dict, lookup, insert, values, empty}
use xenopus.Prelude.Strip.{strip, is_blank}
use xenopus.Skills.Gate.{
  SkillStage, candidate, trusted, superseded, SkillSchema, SkillEvaluation, SkillRecord, Reason,
  PromotionCheck, check,
}

pub data SkillError : Type 0 where
  empty_provenance name_taken unknown_skill : SkillError
  refused : Reason → SkillError

abbrev pub SkillTable : Type 0
SkillTable = Dict SkillRecord

abbrev pub or_unknown : Option SkillRecord → Result SkillError SkillRecord
or_unknown none = err unknown_skill
or_unknown (some r) = ok r

unfoldable pub get : String → SkillTable → Result SkillError SkillRecord
unfolding lookup
get skill_id table = or_unknown (lookup skill_id table)

-- SELECT 1 FROM skills WHERE name = ?
unfoldable pub name_exists : String → SkillTable → Bool
name_exists name table = any (λ r. str_eq r.schema.name name) (values table)

unfoldable pub new_record : String → ℕ → SkillSchema → String → SkillRecord
new_record skill_id now schema provenance = record {
  skill_id = skill_id;
  schema = schema;
  stage = candidate;
  version = 1;
  created_at = now;
  provenance = provenance;
  evaluations = [];
  trusted_at = none;
}

unfoldable pub register :
    String → ℕ → SkillSchema → String → SkillTable → Result SkillError SkillRecord × SkillTable
unfolding strip name_exists insert new_record
register skill_id now schema provenance table =
    if is_blank (strip provenance)
    then (err empty_provenance, table)
    else if name_exists schema.name table
    then (err name_taken, table)
    else (
      ok (new_record skill_id now schema provenance),
      insert skill_id (new_record skill_id now schema provenance) table,
    )

-- `self.get(skill_id)` and what follows it
abbrev pub with_skill :
    Result SkillError SkillRecord
    → (SkillRecord → Result SkillError SkillRecord × SkillTable)
    → SkillTable
    → Result SkillError SkillRecord × SkillTable
with_skill (err e) f table = (err e, table)
with_skill (ok r) f table = f r

-- UPDATE skills SET ... WHERE skill_id = ?, and the row that `get` then reads
unfoldable pub save : String → SkillRecord → SkillTable → Result SkillError SkillRecord × SkillTable
unfolding insert
save skill_id r table = (ok r, insert skill_id r table)

unfoldable pub record_evaluation :
    String → SkillEvaluation → SkillTable → Result SkillError SkillRecord × SkillTable
unfolding get save
record_evaluation skill_id e table =
    with_skill (get skill_id table)
      (λ r. save skill_id (record r { evaluations = r.evaluations ++ e ∷ [] }) table) table

-- `trusted_at_raw`
unfoldable pub new_trusted_at : SkillStage → ℕ → Option ℕ → Option ℕ
new_trusted_at trusted now old = some now
new_trusted_at _ now old = old

abbrev pub if_allowed :
    PromotionCheck
    → Result SkillError SkillRecord × SkillTable
    → SkillTable
    → Result SkillError SkillRecord × SkillTable
if_allowed decision done table =
    if decision.allowed then done else (err (refused decision.reason), table)

unfoldable pub advance_stage :
    String → SkillStage → ℕ → SkillTable → Result SkillError SkillRecord × SkillTable
unfolding get check save new_trusted_at
advance_stage skill_id target now table =
    with_skill (get skill_id table)
      (λ r.
        if_allowed (check r target)
          (save skill_id
            (record r { stage = target; trusted_at = new_trusted_at target now r.trusted_at })
            table)
          table)
      table

unfoldable pub supersede : String → SkillTable → Result SkillError SkillRecord × SkillTable
unfolding get check save
supersede skill_id table =
    with_skill (get skill_id table)
      (λ r.
        if_allowed (check r superseded) (save skill_id (record r { stage = superseded }) table)
          table)
      table
