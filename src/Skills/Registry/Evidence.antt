-- ===== src/Skills/Registry/Evidence.antt =====
-- What every call of the registry keeps: the evidence behind a stage, the history of a skill, and
-- the legality of its moves.
use xenopus.Prelude.{
  ℕ, ◌≤◌, ◌≡◌, ◌≢◌, ◌⊎◌, refl, sym, subst, true, Option, some, List, [], ◌∷◌, ◌++◌, String, Result,
  str_eq, str_eq_iff, arith, length, length-append, Bool-cases, Option-cases, inl, inr,
}
use mathlib.Core.List.{append-nil}
use xenopus.Prelude.Dict.{lookup, insert, lookup-insert}
use xenopus.Skills.Gate.{
  SkillStage, superseded, SkillSchema, SkillEvaluation, SkillRecord, check, is_in,
  legal_skill_transitions,
}
use xenopus.Skills.Gate.Thresholds.{min_evaluations, check-min, check-legal}
use xenopus.Skills.Registry
use xenopus.Skills.Registry.{SkillTable, SkillError, new_record, new_trusted_at}

pub data Call : Type 0 where
  register : (skill_id : String) (now : ℕ) → SkillSchema → (provenance : String) → Call
  record_evaluation : String → SkillEvaluation → Call
  advance_stage : String → SkillStage → ℕ → Call
  supersede : String → Call

unfoldable pub perform : Call → SkillTable → SkillTable
unfolding Registry.register Registry.record_evaluation Registry.advance_stage Registry.supersede
perform (register k now s p) t = (Registry.register k now s p t).1
perform (record_evaluation k e) t = (Registry.record_evaluation k e t).1
perform (advance_stage k target now) t = (Registry.advance_stage k target now t).1
perform (supersede k) t = (Registry.supersede k t).1

-- What a call may make of a stored row: it adds evaluations at the end, and moves along the table.
pub record Follows (r r' : SkillRecord) : Type 0 where
  pub new_evaluations : List SkillEvaluation
  pub history : r'.evaluations ≡ r.evaluations ++ new_evaluations
  pub move : (r'.stage ≡ r.stage) ⊎ (is_in r'.stage (legal_skill_transitions r.stage) ≡ true)
  pub enough :
      min_evaluations r.stage ≤ length r.evaluations
      → min_evaluations r'.stage ≤ length r'.evaluations

abbrev FreshFor : String → Call → Type 0
FreshFor k (register j now s p) = j ≢ k
FreshFor k _ = Unit {0}

Follows-refl : (r : SkillRecord) → Follows r r
Follows-refl r = record {
  new_evaluations = [];
  history = sym (append-nil r.evaluations);
  move = inl refl;
  enough = λ h. h;
}

Follows-evaluation :
    (r : SkillRecord) (e : SkillEvaluation)
    → Follows r (record r { evaluations = r.evaluations ++ e ∷ [] })
Follows-evaluation r e = record {
  new_evaluations = e ∷ [];
  history = refl;
  move = inl refl;
  enough = λ h. omega (arith, length-append r.evaluations (e ∷ []));
}

Follows-advance :
    (r : SkillRecord) (target : SkillStage) (trusted_at : Option ℕ)
    → (check r target).allowed ≡ true
    → Follows r (record r { stage = target; trusted_at = trusted_at })
Follows-advance r target trusted_at h = record {
  new_evaluations = [];
  history = sym (append-nil r.evaluations);
  move = inr (check-legal target r h);
  enough = λ _. check-min target r h;
}

-- The row under `k` after an update of the row under `j`
module _ (j k : String) (t : SkillTable) (r q : SkillRecord) (stored : lookup j t ≡ some r)
    (found : lookup k t ≡ some q) where
  same : str_eq j k ≡ true → r ≡ q
  same e = ground (arith, str_eq_iff j k)

  Follows-save :
      (r' : SkillRecord)
      → Follows r r'
      → (q' : SkillRecord) × (lookup k (insert j r' t) ≡ some q') × Follows q q'
  Follows-save r' f = elim (Bool-cases (str_eq j k)) [
    | inl e ↦ (r', ground (arith, lookup-insert j k r' t), subst (λ x. Follows x r') (same e) f)
    | inr e ↦ (q, ground (arith, lookup-insert j k r' t), Follows-refl q)
  ]

-- The row under `k` after `with_skill`, when what follows it keeps it
Follows-with_skill :
    (j k : String) (t : SkillTable) (q : SkillRecord)
    (f : SkillRecord → Result SkillError SkillRecord × SkillTable)
    → lookup k t ≡ some q
    → ((r : SkillRecord)
        → lookup j t ≡ some r
        → (q' : SkillRecord) × (lookup k (f r).1 ≡ some q') × Follows q q')
    → (q' : SkillRecord) × (lookup k (Registry.with_skill (Registry.get j t) f t).1 ≡ some q')
      × Follows q q'
unfolding Registry.get
Follows-with_skill j k t q f found step = elim (Option-cases (lookup j t)) [
  | inl e ↦ rw e (q, found, Follows-refl q)
  | inr (r, e) ↦ rw e (step r e)
]

Follows-if_allowed :
    (j k : String) (t : SkillTable) (r q : SkillRecord) (target : SkillStage)
    (trusted_at : Option ℕ)
    → lookup j t ≡ some r
    → lookup k t ≡ some q
    → (q' : SkillRecord) × (lookup k
          (Registry.if_allowed
            (check r target)
            (Registry.save j (record r { stage = target; trusted_at = trusted_at }) t)
            t).1
        ≡ some q')
      × Follows q q'
unfolding Registry.save
Follows-if_allowed j k t r q target trusted_at stored found =
    elim (Bool-cases (check r target).allowed) [
      | inl e ↦ rw e (Follows-save j k t r q stored found _ (Follows-advance r target trusted_at e))
      | inr e ↦ rw e (q, found, Follows-refl q)
    ]

-- Whatever is called, a stored skill keeps its evaluations, in their order and at most with new ones
-- behind them; its stage stays or moves along a legal transition; and if its evaluations were enough
-- for its stage, they still are. A registration is taken to draw an id that is not in use.
pub perform-Follows :
    (c : Call) (k : String) (t : SkillTable) (q : SkillRecord)
    → FreshFor k c
    → lookup k t ≡ some q
    → (q' : SkillRecord) × (lookup k (perform c t) ≡ some q') × Follows q q'
unfolding perform Registry.register Registry.record_evaluation Registry.advance_stage
    Registry.supersede Registry.save
perform-Follows (register j now s p) k t q fresh found =
    (q, ground (arith, lookup-insert j k (new_record j now s p) t, str_eq_iff j k), Follows-refl q)
perform-Follows (record_evaluation j e) k t q fresh found =
    Follows-with_skill j k t q _ found
      λ r stored. Follows-save j k t r q stored found _ (Follows-evaluation r e)
perform-Follows (advance_stage j target now) k t q fresh found =
    Follows-with_skill j k t q _ found λ r stored.
      Follows-if_allowed j k t r q target (new_trusted_at target now r.trusted_at) stored found
perform-Follows (supersede j) k t q fresh found =
    Follows-with_skill j k t q _ found
      λ r stored. Follows-if_allowed j k t r q superseded r.trusted_at stored found
