-- ===== src/Runtime/Aggregator/Tests.antt =====
-- Claims on two keys, and the theorem at them.
use xenopus.Prelude.{◌≡◌, List, [], ◌∷◌, String, ok, arith}
use xenopus.Runtime.Aggregator.{Claim, AggregationReport, aggregate}
use xenopus.Runtime.Aggregator.Totality.{aggregate-total}

abbrev claim : String → String → String → Claim
claim id key content = record {
  claim_id = id;
  task_id = "t";
  role = "coder";
  key = key;
  content = content;
  evidence = [];
  confidence = 500000;
}

abbrev claims : List Claim
claims = claim "c1" "k" "yes" ∷ claim "c2" "j" "one" ∷ claim "c3" "k" "no" ∷ []

aggregate-total_example : (report : AggregationReport) × (aggregate claims ≡ ok report)
aggregate-total_example = aggregate-total claims (omega arith)
