-- ===== src/Runtime/Synthesizer/Tests.antt =====
-- Claims of agents, what they aggregate to, and the theorems at them.
use mathlib.Core.List.{Memᴰ}
use xenopus.Prelude.{◌≡◌, refl, false, some, List, [], ◌∷◌, String, ok, is_empty}
use xenopus.Prelude.Dict.{lookup, insert}
use xenopus.Prelude.Sort.{sort_by}
use xenopus.Prelude.Text.{text_le}
use xenopus.Runtime.Aggregator.{
  Claim, AggregationReport, aggregate, settle_all, settle, resolve, evidence_gap, dedupe_by_content,
  distinct_from, rank_claims, outranks, group_claims, report_post_init, confidence_of, unresolved,
  total_confidence, ConflictResolution,
}
use xenopus.Runtime.Aggregator.Dominance.{Beats}
use xenopus.Runtime.Synthesizer.{
  trusted, SynthesisReport, synthesize, conflicted_keys, superseded_keys, finding_of,
  uncertainties_of, checks_of, verdict_of, post_init, unevidenced_keys, doubts_of,
}
use xenopus.Runtime.Synthesizer.Trust.{trusted-Beats}

abbrev claim : String → String → List String → Claim
claim id content evidence = record {
  claim_id = id;
  task_id = "t";
  role = "reviewer";
  key = "k";
  content = content;
  evidence = evidence;
  confidence = 900000;
}

abbrev weak : Claim
weak = claim "c1" "no" ("e1" ∷ [])

abbrev strong : Claim
strong = claim "c2" "yes" ("e2" ∷ "e3" ∷ [])

abbrev claims : List Claim
claims = weak ∷ strong ∷ []

abbrev report : AggregationReport
report = record {
  top_claims = strong ∷ [];
  conflicts =
      record {
        key = "k";
        resolution = ConflictResolution.superseded;
        winner = some strong;
        losers = weak ∷ [];
      }
      ∷ [];
  confidence = record { over = 3600000; under = 4 };
}

aggregated : aggregate claims ≡ ok report
unfolding aggregate settle_all settle resolve evidence_gap dedupe_by_content distinct_from
    rank_claims outranks group_claims report_post_init confidence_of unresolved total_confidence
    lookup insert sort_by text_le
aggregated = refl

abbrev synthesis : SynthesisReport
synthesis = record {
  verdict = trusted;
  findings =
      record {
        claim_key = "k";
        content = "yes";
        evidence = "e2" ∷ "e3" ∷ [];
        contested = false;
        note = "superseded weaker evidence";
      }
      ∷ [];
  uncertainties = [];
  verification = checks_of report;
}

synthesized : synthesize report ≡ ok synthesis
unfolding synthesize conflicted_keys superseded_keys finding_of uncertainties_of checks_of
    verdict_of post_init unevidenced_keys doubts_of
synthesized = refl

trusted-Beats_example :
    (t : Claim) × Memᴰ t claims × (t.key ≡ "k") × (is_empty t.evidence ≡ false) × Beats t weak
trusted-Beats_example =
    trusted-Beats claims report synthesis weak aggregated synthesized refl (Memᴰ.head refl)
