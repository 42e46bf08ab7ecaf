-- ===== src/Runtime/Permission.antt =====
-- src/xenopus/runtime/permission.py: ordered rules, the first match decides, and no match denies.
pub mod Decisions
mod Tests
use xenopus.Prelude.{
  ◌≡◌, refl, Bool, true, false, Option, none, some, List, [], ◌∷◌, ◌++◌, String, str_eq, ◌&&◌,
  Result, ok, err, if◌then◌else◌,
}

pub data PermissionDecision : Type 0 where
  allow ask deny : PermissionDecision

pub record PermissionRequest : Type 0 where
  pub subject : String
  pub action : String
  pub resource : Option String
  pub tool : Option String

pub record PermissionRule : Type 0 where
  pub decision : PermissionDecision
  pub subject : Option String
  pub action : Option String
  pub resource : Option String
  pub tool : Option String

-- `self.f is None or self.f == value`, for a value that is a text or may be None
unfoldable pub agrees : Option String → Option String → Bool
agrees none value = true
agrees (some s) none = false
agrees (some s) (some value) = str_eq s value

unfoldable pub matches : PermissionRule → PermissionRequest → Bool
unfolding agrees
matches rule request =
    if agrees rule.subject (some request.subject)
    then (if agrees rule.action (some request.action)
        then (if agrees rule.resource request.resource
            then agrees rule.tool request.tool
            else false)
        else false)
    else false

-- `PermissionEngine`: its rules, in order
abbrev pub PermissionEngine : Type 0
PermissionEngine = List PermissionRule

unfoldable pub decide : PermissionEngine → PermissionRequest → PermissionDecision
unfolding matches
decide [] request = deny
decide (rule ∷ rules) request = if matches rule request then rule.decision else decide rules request

pub data PermissionError : Type 0 where
  permission_denied : PermissionRequest → PermissionError

abbrev is_allow : PermissionDecision → Bool
is_allow allow = true
is_allow _ = false

unfoldable pub check : PermissionEngine → PermissionRequest → Result PermissionError (Unit {0})
unfolding decide
check engine request =
    if is_allow (decide engine request) then ok tt else err (permission_denied request)

unfoldable pub add_rule : PermissionRule → Bool → PermissionEngine → PermissionEngine
add_rule rule prepend rules = if prepend then rule ∷ rules else rules ++ rule ∷ []
