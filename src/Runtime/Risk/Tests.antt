-- ===== src/Runtime/Risk/Tests.antt =====
-- The theorems on `RiskEngine` at small inputs.
use xenopus.Prelude.{◌≡◌, refl, true, false}
use xenopus.Runtime.Risk.{RiskFactors, low, medium, high, auto, approval, deny, evaluate}
use xenopus.Runtime.Risk.Outcomes.{destructive_irreversible-deny}

abbrev reading : RiskFactors
reading = record {
  destructiveness = false;
  external_side_effects = false;
  reversible = true;
  sensitive_data = false;
  blast_radius = low;
}

abbrev deleting : RiskFactors
deleting = record reading { destructiveness = true; reversible = false }

outcomes :
    (evaluate reading high ≡ auto)
    × (evaluate (record reading { destructiveness = true }) medium ≡ approval)
    × (evaluate (record reading { reversible = false; sensitive_data = true }) high ≡ deny)
unfolding evaluate
outcomes = (refl, refl, refl)

destructive_irreversible-deny_example : evaluate deleting low ≡ deny
destructive_irreversible-deny_example = destructive_irreversible-deny deleting low refl refl
