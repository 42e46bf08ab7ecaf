-- ===== src/Runtime/Aggregator.antt =====
-- src/xenopus/runtime/aggregator.py: claims of agents, ranked by their evidence, and their conflicts.
-- Confidences are numbers of millionths, and the confidence of a report is an exact fraction of them.
pub mod Dominance
pub mod Groups
pub mod Reports
pub mod Totality
mod Tests
use xenopus.Prelude.{
  ℕ, ◌+◌, ◌-◌, ◌*◌, min, Bool, true, false, Option, none, some, List, [], ◌∷◌, ◌++◌, String, str_eq,
  Result, ok, err, ltb, leb, length, any, if◌then◌else◌,
}
use xenopus.Prelude.Dict.{Dict, lookup, insert, keys}
use xenopus.Prelude.Sort.{sort_by}
use xenopus.Prelude.Strip.{strip, is_blank}
use xenopus.Prelude.Text.{text_le}

-- What is read of an agent's result; `artifacts` is whatever the extractor of claims reads.
pub record AgentResult (A : Type 0) : Type 0 where
  pub task_id : String
  pub role : String
  pub status : String
  pub artifacts : A
  pub evidence : List String
  pub confidence : ℕ

pub record Claim : Type 0 where
  pub claim_id : String
  pub task_id : String
  pub role : String
  pub key : String
  pub content : String
  pub evidence : List String
  pub confidence : ℕ

-- `ValueError` of the two records, and what an empty list raises
pub data AggregationError : Type 0 where
  empty_key bad_confidence no_claim no_loser : AggregationError

-- The confidence 1.0
abbrev pub certain : ℕ
certain = 1000000

-- `Claim.__post_init__`
unfoldable pub post_init : Claim → Result AggregationError Claim
unfolding strip
post_init c =
    if is_blank (strip c.key)
    then err empty_key
    else if ltb certain c.confidence
    then err bad_confidence
    else ok c

unfoldable pub from_result :
    {A : Type 0} → String → AgentResult A → (key content : String) → Result AggregationError Claim
unfolding post_init
from_result claim_id result key content = post_init (record {
  claim_id = claim_id;
  task_id = result.task_id;
  role = result.role;
  key = key;
  content = content;
  evidence = result.evidence;
  confidence = result.confidence;
})

-- One more claim, and then the others
abbrev pub before :
    Result AggregationError Claim
    → Result AggregationError (List Claim)
    → Result AggregationError (List Claim)
before (err e) rest = err e
before (ok c) (err e) = err e
before (ok c) (ok cs) = ok (c ∷ cs)

module _ {A : Type 0} (claim_id : ℕ → String) where
  -- The inner loop, from the `n`-th claim on: `rest` is what the outer loop does after it.
  unfoldable pub claims_of :
      AgentResult A
      → List (String × String)
      → ℕ
      → (ℕ → Result AggregationError (List Claim))
      → Result AggregationError (List Claim)
  unfolding from_result
  claims_of result [] n rest = rest n
  claims_of result ((key, content) ∷ pairs) n rest =
      before (from_result (claim_id n) result key content) (claims_of result pairs (n + 1) rest)

  -- `claims_from_results`, with its `key_of`
  unfoldable pub claims_from_results :
      (AgentResult A → List (String × String))
      → List (AgentResult A)
      → ℕ
      → Result AggregationError (List Claim)
  unfolding claims_of
  claims_from_results key_of [] n = ok []
  claims_from_results key_of (result ∷ results) n =
      if str_eq result.status "COMPLETED"
      then claims_of result (key_of result) n (λ m. claims_from_results key_of results m)
      else claims_from_results key_of results n

-- The order of the key of `rank_claims`: more evidence, then more confidence, then the id
unfoldable pub outranks : Claim → Claim → Bool
outranks a b =
    if ltb (length b.evidence) (length a.evidence)
    then true
    else if ltb (length a.evidence) (length b.evidence)
    then false
    else if ltb b.confidence a.confidence
    then true
    else if ltb a.confidence b.confidence
    then false
    else text_le a.claim_id b.claim_id

unfoldable pub rank_claims : List Claim → List Claim
unfolding sort_by
rank_claims claims = sort_by outranks claims

-- The loop of `_dedupe_by_content`
unfoldable pub distinct_from : List String → List Claim → List Claim
distinct_from seen [] = []
distinct_from seen (c ∷ cs) =
    let rest = distinct_from (c.content ∷ seen) cs in
    if any (λ t. str_eq t c.content) seen then rest else c ∷ rest

unfoldable pub dedupe_by_content : List Claim → List Claim
unfolding rank_claims distinct_from
dedupe_by_content claims = distinct_from [] (rank_claims claims)

pub data ConflictResolution : Type 0 where
  superseded coexist conflict : ConflictResolution

pub record Conflict : Type 0 where
  pub key : String
  pub resolution : ConflictResolution
  pub winner : Option Claim
  pub losers : List Claim

abbrev pub smaller : ℕ → Option ℕ → ℕ
smaller g none = g
smaller g (some h) = min g h

-- `min(len(winner.evidence) - len(c.evidence) for c in losers)`; a difference below zero is 0 here, and
-- both are below the threshold.
unfoldable pub evidence_gap : Claim → List Claim → Option ℕ
evidence_gap winner [] = none
evidence_gap winner (c ∷ losers) =
    some (smaller (length winner.evidence - length c.evidence) (evidence_gap winner losers))

abbrev pub evidence_dominance_threshold : ℕ
evidence_dominance_threshold = 1

abbrev pub Settled : Type 0
Settled = Claim × Option Conflict

abbrev pub decide_gap : String → Claim → List Claim → Option ℕ → Result AggregationError Settled
decide_gap key winner losers none = err no_loser
decide_gap key winner losers (some gap) =
    if leb evidence_dominance_threshold gap
    then ok (
      winner,
      some (record { key = key; resolution = superseded; winner = some winner; losers = losers }),
    )
    else ok (
      winner,
      some (record { key = key; resolution = conflict; winner = none; losers = winner ∷ losers }),
    )

unfoldable pub resolve : String → List Claim → Result AggregationError Settled
unfolding evidence_gap
resolve key [] = err no_claim
resolve key (winner ∷ losers) = decide_gap key winner losers (evidence_gap winner losers)

-- The body of the loop over the keys, for the claims that are left of a group
unfoldable pub settle : String → List Claim → Result AggregationError Settled
unfolding resolve rank_claims
settle key [] = resolve key (rank_claims [])
settle key (c ∷ []) = ok (c, none)
settle key (c ∷ d ∷ rest) = resolve key (rank_claims (c ∷ d ∷ rest))

abbrev pub or_empty : {A : Type 0} → Option (List A) → List A
or_empty none = []
or_empty (some xs) = xs

-- `by_key`
unfoldable pub group_claims : List Claim → Dict (List Claim) → Dict (List Claim)
unfolding lookup insert
group_claims [] by_key = by_key
group_claims (c ∷ cs) by_key =
    group_claims cs (insert c.key (or_empty (lookup c.key by_key) ++ c ∷ []) by_key)

abbrev pub cons_some : {A : Type 0} → Option A → List A → List A
cons_some none xs = xs
cons_some (some x) xs = x ∷ xs

abbrev pub Outcome : Type 0
Outcome = List Claim × List Conflict

abbrev pub add_settled :
    Result AggregationError Settled
    → Result AggregationError Outcome
    → Result AggregationError Outcome
add_settled (err e) rest = err e
add_settled (ok s) (err e) = err e
add_settled (ok (top, found)) (ok (tops, conflicts)) = ok (top ∷ tops, cons_some found conflicts)

-- The loop over the keys
unfoldable pub settle_all : List String → Dict (List Claim) → Result AggregationError Outcome
unfolding settle dedupe_by_content lookup
settle_all [] by_key = ok ([], [])
settle_all (key ∷ ks) by_key =
    add_settled (settle key (dedupe_by_content (or_empty (lookup key by_key))))
      (settle_all ks by_key)

-- A fraction of millionths
pub record Confidence : Type 0 where
  pub over : ℕ
  pub under : ℕ

pub record AggregationReport : Type 0 where
  pub top_claims : List Claim
  pub conflicts : List Conflict
  pub confidence : Confidence

abbrev pub is_conflict : ConflictResolution → Bool
is_conflict conflict = true
is_conflict _ = false

-- `sum(1 for c in conflicts if c.resolution is CONFLICT)`
unfoldable pub unresolved : List Conflict → ℕ
unresolved [] = 0
unresolved (c ∷ cs) = if is_conflict c.resolution then unresolved cs + 1 else unresolved cs

unfoldable pub total_confidence : List Claim → ℕ
total_confidence [] = 0
total_confidence (c ∷ cs) = c.confidence + total_confidence cs

-- `max(0.0, base - CONFLICT_PENALTY * unresolved)`, over the common denominator of the mean and of 1/4
unfoldable pub confidence_of : List Claim → ℕ → Confidence
unfolding total_confidence
confidence_of [] n = record { over = 0; under = 1 }
confidence_of (c ∷ cs) n = record {
  over = 4 * total_confidence (c ∷ cs) - certain * (n * length (c ∷ cs));
  under = 4 * length (c ∷ cs);
}

-- `AggregationReport.__post_init__`
unfoldable pub report_post_init : AggregationReport → Result AggregationError AggregationReport
report_post_init report =
    if ltb (certain * report.confidence.under) report.confidence.over
    then err bad_confidence
    else ok report

abbrev pub report_of : Result AggregationError Outcome → Result AggregationError AggregationReport
report_of (err e) = err e
report_of (ok (tops, conflicts)) = report_post_init (record {
  top_claims = tops;
  conflicts = conflicts;
  confidence = confidence_of tops (unresolved conflicts);
})

unfoldable pub aggregate : List Claim → Result AggregationError AggregationReport
unfolding settle_all group_claims sort_by report_post_init confidence_of unresolved
aggregate claims =
    let by_key : Dict (List Claim) = group_claims claims [] in
    report_of (settle_all (sort_by text_le (keys by_key)) by_key)
