-- ===== src/Runtime/Synthesizer.antt =====
-- src/xenopus/runtime/synthesizer.py: the verdict over an aggregation. The details of its checks are
-- texts and are left out, and a doubt is kept as its kind with the key that it names.
pub mod Doubts
pub mod Trust
mod Tests
use xenopus.Prelude.{
  Bool, true, false, not, ◌&&◌, ◌||◌, List, [], ◌∷◌, ◌++◌, String, str_eq, Result, ok, err, any,
  filter, map, is_empty, if◌then◌else◌,
}
use xenopus.Runtime.Aggregator.{Claim, Conflict, ConflictResolution, AggregationReport, is_conflict}
use xenopus.Runtime.Verifier.{Verdict, pass, CheckResult, is_fail, is_uncertain}

pub data SynthesisVerdict : Type 0 where
  trusted uncertain rejected : SynthesisVerdict

pub record Finding : Type 0 where
  pub claim_key : String
  pub content : String
  pub evidence : List String
  pub contested : Bool
  pub note : String

pub data Uncertainty : Type 0 where
  disagreement unevidenced : String → Uncertainty

pub record SynthesisReport : Type 0 where
  pub verdict : SynthesisVerdict
  pub findings : List Finding
  pub uncertainties : List Uncertainty
  pub verification : List CheckResult

-- `ValueError` of the report
pub data SynthesisError : Type 0 where
  trusted_with_doubts : SynthesisError

abbrev pub is_superseded : ConflictResolution → Bool
is_superseded ConflictResolution.superseded = true
is_superseded _ = false

-- `conflicted_keys` and `superseded_keys`: sets in the source, of which only membership and whether
-- they are empty are read
unfoldable pub conflicted_keys : List Conflict → List String
conflicted_keys conflicts = map (λ f. f.key) (filter (λ f. is_conflict f.resolution) conflicts)

unfoldable pub superseded_keys : List Conflict → List String
superseded_keys conflicts = map (λ f. f.key) (filter (λ f. is_superseded f.resolution) conflicts)

abbrev pub is_key_in : List String → String → Bool
is_key_in ks key = any (λ k. str_eq k key) ks

unfoldable pub finding_of : (conflicted superseded : List String) → Claim → Finding
finding_of conflicted superseded claim = record {
  claim_key = claim.key;
  content = claim.content;
  evidence = claim.evidence;
  contested = is_key_in conflicted claim.key;
  note = if is_key_in superseded claim.key then "superseded weaker evidence" else "";
}

-- What the loop adds to the doubts for one claim
unfoldable pub doubts_of : List String → Claim → List Uncertainty
doubts_of conflicted claim =
    (if is_key_in conflicted claim.key then disagreement claim.key ∷ [] else [])
    ++ (if is_empty claim.evidence then unevidenced claim.key ∷ [] else [])

unfoldable pub uncertainties_of : List String → List Claim → List Uncertainty
unfolding doubts_of
uncertainties_of conflicted [] = []
uncertainties_of conflicted (claim ∷ claims) =
    doubts_of conflicted claim ++ uncertainties_of conflicted claims

unfoldable pub unevidenced_keys : List Claim → List String
unevidenced_keys claims = map (λ c. c.key) (filter (λ c. is_empty c.evidence) claims)

abbrev pub aggregation_present_check : CheckResult
aggregation_present_check = record { name = "aggregation-present"; verdict = pass }

-- The keys without evidence, and whether there are claims
abbrev pub evidence_backed_check : List String → Bool → CheckResult
evidence_backed_check unbacked has_claims = record {
  name = "evidence-backed";
  verdict =
      if not (is_empty unbacked)
      then Verdict.uncertain
      else if not has_claims
      then Verdict.uncertain
      else pass;
}

abbrev pub conflict_free_check : List String → CheckResult
conflict_free_check conflicted = record {
  name = "conflict-free";
  verdict = if is_empty conflicted then pass else Verdict.uncertain;
}

unfoldable pub checks_of : AggregationReport → List CheckResult
unfolding conflicted_keys unevidenced_keys
checks_of report =
    aggregation_present_check
    ∷ evidence_backed_check (unevidenced_keys report.top_claims) (not (is_empty report.top_claims))
    ∷ conflict_free_check (conflicted_keys report.conflicts)
    ∷ []

unfoldable pub verdict_of : List CheckResult → List Uncertainty → SynthesisVerdict
verdict_of results uncertainties =
    if any (λ r. is_fail r.verdict) results
    then rejected
    else if any (λ r. is_uncertain r.verdict) results || not (is_empty uncertainties)
    then uncertain
    else trusted

abbrev pub is_trusted : SynthesisVerdict → Bool
is_trusted trusted = true
is_trusted _ = false

-- `SynthesisReport.__post_init__`
unfoldable pub post_init : SynthesisReport → Result SynthesisError SynthesisReport
post_init report =
    if is_trusted report.verdict && not (is_empty report.uncertainties)
    then err trusted_with_doubts
    else ok report

unfoldable pub synthesize : AggregationReport → Result SynthesisError SynthesisReport
unfolding conflicted_keys superseded_keys finding_of uncertainties_of checks_of verdict_of post_init
synthesize report =
    let conflicted = conflicted_keys report.conflicts in
    let superseded = superseded_keys report.conflicts in
    let uncertainties = uncertainties_of conflicted report.top_claims in
    let results = checks_of report in
    post_init (record {
      verdict = verdict_of results uncertainties;
      findings = map (finding_of conflicted superseded) report.top_claims;
      uncertainties = uncertainties;
      verification = results;
    })
