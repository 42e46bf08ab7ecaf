-- ===== src/Runtime/Risk.antt =====
-- src/xenopus/runtime/risk.py, and the risk levels of tools/contracts.py.
pub mod Outcomes
mod Tests
use xenopus.Prelude.{ℕ, ◌+◌, Bool, true, false, not, ◌&&◌, leb, if◌then◌else◌}

-- `RiskLevel(IntEnum)` of tools/contracts.py
pub data RiskLevel : Type 0 where
  low medium high : RiskLevel

-- `int(level)`
unfoldable pub level_value : RiskLevel → ℕ
level_value low = 0
level_value medium = 1
level_value high = 2

pub data RiskOutcome : Type 0 where
  auto approval deny : RiskOutcome

pub record RiskFactors : Type 0 where
  pub destructiveness : Bool
  pub external_side_effects : Bool
  pub reversible : Bool
  pub sensitive_data : Bool
  pub blast_radius : RiskLevel

unfoldable pub score : RiskFactors → ℕ
unfolding level_value
score f =
    (if f.destructiveness then 3 else 0)
    + (if f.external_side_effects then 2 else 0)
    + (if f.reversible then 0 else 4)
    + (if f.sensitive_data then 2 else 0)
    + level_value f.blast_radius

abbrev pub approval_threshold : ℕ
approval_threshold = 4

abbrev pub deny_threshold : ℕ
deny_threshold = 8

unfoldable pub evaluate : RiskFactors → RiskLevel → RiskOutcome
unfolding score level_value
evaluate factors declared_risk =
    let total = score factors + level_value declared_risk in
    if factors.destructiveness && not factors.reversible
    then deny
    else if leb deny_threshold total
    then deny
    else if leb approval_threshold total
    then approval
    else auto
