-- ===== src/Runtime/Risk/Outcomes.antt =====
-- What the risk engine decides, read off the table.
use xenopus.Prelude.{ℕ, ◌+◌, ◌≤◌, ◌<◌, ◌≡◌, Bool, true, false, ◌⊎◌, ◌↔◌, arith}
use xenopus.Runtime.Risk.{
  RiskLevel, RiskOutcome, auto, approval, deny, RiskFactors, level_value, score, evaluate,
}

-- A destructive and irreversible action is denied, whatever the other factors and the tool's level.
pub destructive_irreversible-deny :
    (f : RiskFactors) (declared : RiskLevel)
    → f.destructiveness ≡ true
    → f.reversible ≡ false
    → evaluate f declared ≡ deny
unfolding evaluate
destructive_irreversible-deny f declared d r = ground arith

-- The three outcomes split the actions by the total score, but for the row of the destructive and
-- irreversible ones: AUTO exactly below 4, DENY exactly for that row and from 8 on.
pub evaluate_table :
    (f : RiskFactors) (declared : RiskLevel)
    → ((evaluate f declared ≡ auto) ↔ (score f + level_value declared < 4))
      × ((evaluate f declared ≡ deny) ↔ (
          (f.destructiveness ≡ true) × (f.reversible ≡ false)
          ⊎ (8 ≤ score f + level_value declared)))
unfolding evaluate
evaluate_table f declared =
    ((λ h. ground arith, λ h. ground arith), (λ h. ground arith, λ h. ground arith))

-- How strict an outcome is.
abbrev pub strictness : RiskOutcome → ℕ
strictness auto = 0
strictness approval = 1
strictness deny = 2

-- `b` implies `c`
abbrev pub Implies : Bool → Bool → Type 0
Implies b c = b ≡ true → c ≡ true

pub record IsRiskier (f g : RiskFactors) : Type 0 where
  pub destructiveness : Implies f.destructiveness g.destructiveness
  pub external_side_effects : Implies f.external_side_effects g.external_side_effects
  pub reversible : Implies g.reversible f.reversible
  pub sensitive_data : Implies f.sensitive_data g.sensitive_data
  pub blast_radius : level_value f.blast_radius ≤ level_value g.blast_radius

-- The outcome is monotone: more declared risk, or a factor made worse, never relaxes it.
pub evaluate_mono :
    (f g : RiskFactors) (a b : RiskLevel)
    → IsRiskier f g
    → level_value a ≤ level_value b
    → strictness (evaluate f a) ≤ strictness (evaluate g b)
unfolding evaluate
evaluate_mono f g a b h k = ground arith
