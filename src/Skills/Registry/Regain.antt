-- ===== src/Skills/Registry/Regain.antt =====
-- How a degraded skill is trusted again.
use xenopus.Prelude.{
  ℕ, ◌≤◌, ◌≡◌, refl, true, false, some, String, arith, length, is_empty, List, [], ◌∷◌,
}
use xenopus.Prelude.Dict.{lookup, insert, lookup-insert_self}
use xenopus.Skills.Gate.{
  SkillStage, evaluated, experimental, trusted, degraded, SkillRecord, check, is_below,
  success_rate,
}
use xenopus.Skills.Registry.{SkillTable, new_trusted_at, advance_stage}

is_empty-length : {A : Type 0} (xs : List A) → 3 ≤ length xs → is_empty xs ≡ false
is_empty-length [] h = absurd (omega arith)
is_empty-length (x ∷ xs) h = refl

advance_stage-allowed :
    (k : String) (target : SkillStage) (now : ℕ) (t : SkillTable) (r : SkillRecord)
    → lookup k t ≡ some r
    → (check r target).allowed ≡ true
    → (advance_stage k target now t).1
      ≡ insert k
          (record r { stage = target; trusted_at = new_trusted_at target now r.trusted_at })
          t
unfolding advance_stage
advance_stage-allowed k target now t r stored h = ground arith

advance_stage-lookup :
    (k : String) (target : SkillStage) (now : ℕ) (t : SkillTable) (r : SkillRecord)
    → lookup k t ≡ some r
    → (check r target).allowed ≡ true
    → lookup k (advance_stage k target now t).1
      ≡ some (record r { stage = target; trusted_at = new_trusted_at target now r.trusted_at })
advance_stage-lookup k target now t r stored h =
    rw (advance_stage-allowed k target now t r stored h) (lookup-insert_self k _ t)

may_evaluate :
    (r : SkillRecord)
    → r.stage ≡ degraded
    → 3 ≤ length r.evaluations
    → (check r evaluated).allowed ≡ true
unfolding check
may_evaluate r h enough = ground (arith, is_empty-length r.evaluations)

may_try :
    (r : SkillRecord)
    → r.stage ≡ evaluated
    → 3 ≤ length r.evaluations
    → is_below (success_rate r.evaluations) 3 4 ≡ false
    → (check r experimental).allowed ≡ true
unfolding check
may_try r h enough rate = ground arith

may_trust :
    (r : SkillRecord)
    → r.stage ≡ experimental
    → 3 ≤ length r.evaluations
    → is_below (success_rate r.evaluations) 3 4 ≡ false
    → (check r trusted).allowed ≡ true
unfolding check
may_trust r h enough rate = ground arith

-- The three calls that lead from DEGRADED back to TRUSTED
abbrev pub regain : String → ℕ → SkillTable → SkillTable
regain k now t =
    (advance_stage k trusted now
      (advance_stage k experimental now (advance_stage k evaluated now t).1).1).1

-- A DEGRADED skill whose lifetime record still has three evaluations and a success rate of 3/4 or
-- more is TRUSTED again after three calls of `advance_stage` alone: no new evaluation is asked for.
pub degraded-regains :
    (k : String) (now : ℕ) (t : SkillTable) (r : SkillRecord)
    → lookup k t ≡ some r
    → r.stage ≡ degraded
    → 3 ≤ length r.evaluations
    → is_below (success_rate r.evaluations) 3 4 ≡ false
    → lookup k (regain k now t) ≡ some (record r { stage = trusted; trusted_at = some now })
unfolding new_trusted_at
degraded-regains k now t r stored h enough rate =
    let r1 : SkillRecord = record r { stage = evaluated } in
    let r2 : SkillRecord = record r { stage = experimental } in
    let t1 : SkillTable = (advance_stage k evaluated now t).1 in
    let t2 : SkillTable = (advance_stage k experimental now t1).1 in
    let s1 = advance_stage-lookup k evaluated now t r stored (may_evaluate r h enough) in
    let s2 = advance_stage-lookup k experimental now t1 r1 s1 (may_try r1 refl enough rate) in
    advance_stage-lookup k trusted now t2 r2 s2 (may_trust r2 refl enough rate)
