-- ===== src/Runtime/Verifier.antt =====
-- src/xenopus/runtime/verifier.py: checks over observations, and the worst of their verdicts. The
-- details of a check are texts and are left out.
pub mod Rechecks
mod Tests
use xenopus.Prelude.{
  Bool, true, false, not, Option, none, some, List, [], ◌∷◌, ◌++◌, String, str_eq, is_empty, any,
  filter, map, if◌then◌else◌,
}
use xenopus.Prelude.Dict.{Dict, lookup, insert}

pub data Verdict : Type 0 where
  pass fail uncertain : Verdict

pub record CheckResult : Type 0 where
  pub name : String
  pub verdict : Verdict

abbrev pub is_fail : Verdict → Bool
is_fail fail = true
is_fail _ = false

abbrev pub is_uncertain : Verdict → Bool
is_uncertain uncertain = true
is_uncertain _ = false

-- `VerificationReport.overall`
unfoldable pub overall : List CheckResult → Verdict
overall checks =
    if any (λ c. is_fail c.verdict) checks
    then fail
    else if any (λ c. is_uncertain c.verdict) checks
    then uncertain
    else pass

-- What the checks read of the content of an observation: `tool` when it is a text, and whether `ok` is
-- true
pub record Content : Type 0 where
  pub tool : Option String
  pub succeeded : Bool

pub record Observation : Type 0 where
  pub kind : String
  pub content : Content

abbrev pub Index : Type 0
Index = Dict (List Content)

-- `index.get(kind, [])`
abbrev pub or_empty : Option (List Content) → List Content
or_empty none = []
or_empty (some entries) = entries

unfoldable pub entries_of : String → Index → List Content
unfolding lookup
entries_of kind index = or_empty (lookup kind index)

-- The loop of `_index`
unfoldable pub index_from : List Observation → Index → Index
unfolding entries_of insert
index_from [] index = index
index_from (o ∷ observations) index =
    index_from observations (insert o.kind (entries_of o.kind index ++ o.content ∷ []) index)

abbrev pub VerificationCheck : Type 0
VerificationCheck = Index → CheckResult

-- `Verifier.verify`
unfoldable pub verify : List VerificationCheck → List Observation → List CheckResult
unfolding index_from
verify checks observations = map (λ c. c (index_from observations [])) checks

unfoldable pub require_observation : (name kind : String) → VerificationCheck
unfolding entries_of
require_observation name kind index = record {
  name = name;
  verdict = if is_empty (entries_of kind index) then uncertain else pass;
}

abbrev pub is_tool : String → Option String → Bool
is_tool tool none = false
is_tool tool (some t) = str_eq t tool

-- The loop of `require_success_result`: the first entry of the tool decides.
unfoldable pub first_verdict : String → List Content → Verdict
first_verdict tool [] = uncertain
first_verdict tool (entry ∷ entries) =
    if is_tool tool entry.tool
    then (if entry.succeeded then pass else fail)
    else first_verdict tool entries

unfoldable pub require_success_result : (name tool : String) → VerificationCheck
unfolding first_verdict entries_of
require_success_result name tool index = record {
  name = name;
  verdict = first_verdict tool (entries_of "tool_result" index);
}

unfoldable pub recheck_verdict : String → List Content → Verdict
recheck_verdict tool entries =
    let attempts = filter (λ e. is_tool tool e.tool) entries in
    if is_empty attempts
    then uncertain
    else if is_empty (filter (λ e. not e.succeeded) attempts)
    then pass
    else fail

unfoldable pub adversarial_recheck : (name tool : String) → VerificationCheck
unfolding recheck_verdict entries_of
adversarial_recheck name tool index = record {
  name = name;
  verdict = recheck_verdict tool (entries_of "tool_result" index);
}
