-- ===== src/Tools/Contracts.antt =====
-- src/xenopus/tools/contracts.py: what a tool declares, what it is called with and what it answers.
-- `V` is Python's Any, the values of a dict of arguments; `W` is the world that a handler changes.
use xenopus.Prelude.{
  ℕ, Bool, true, false, Option, List, String, Result, ok, err, leb, if◌then◌else◌,
}
use xenopus.Prelude.Dict.{Dict, empty}
use xenopus.Prelude.Strip.{strip, is_blank}
use xenopus.Runtime.Risk.{RiskLevel}

pub record ToolContract : Type 0 where
  pub name : String
  pub side_effects : String
  pub required_permissions : List String
  pub risk : RiskLevel
  pub timeout : ℕ
  pub idempotent : Bool

-- `ToolContract.__post_init__`: the name is not blank and the timeout is positive.
pub data ContractError : Type 0 where
  empty_name bad_timeout : ContractError

unfoldable pub post_init : ToolContract → Result ContractError ToolContract
unfolding strip
post_init contract =
    if is_blank (strip contract.name)
    then err empty_name
    else if leb contract.timeout 0
    then err bad_timeout
    else ok contract

-- The message and the duration are left out.
pub record ToolResult (V : Type 0) : Type 0 where
  pub is_ok : Bool
  pub data_ : Dict V
  pub error_code : String

abbrev pub success : {V : Type 0} → Dict V → ToolResult V
success data_ = record { is_ok = true; data_ = data_; error_code = "" }

abbrev pub failure : {V : Type 0} → String → ToolResult V
failure error_code = record { is_ok = false; data_ = empty; error_code = error_code }

-- A handler answers, or raises: `none`.
abbrev pub ToolHandler : Type 0 → Type 0 → Type 0
ToolHandler V W = Dict V → W → Option (ToolResult V) × W
