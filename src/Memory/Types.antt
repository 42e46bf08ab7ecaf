-- ===== src/Memory/Types.antt =====
-- src/xenopus/memory/types.py: items of memory, the gate that promotes them, and their quality.
-- Confidences are numbers of millionths, and the two rates of a quality are tenths.
pub mod Quality
use mathlib.Core.Bool.{decide}
use xenopus.Prelude.{
  ℕ, ◌+◌, ◌-◌, ◌*◌, min, Bool, true, false, ◌&&◌, Option, none, some, List, [], ◌∷◌, String, Result,
  ok, err, ltb, leb, any, if◌then◌else◌,
}
use xenopus.Prelude.Strip.{strip, is_blank}

pub data MemoryStatus : Type 0 where
  candidate active stale superseded expired archived rejected : MemoryStatus

pub data MemoryScope : Type 0 where
  global user workspace project task temporary : MemoryScope

pub data MemoryKind : Type 0 where
  episodic semantic procedural preference project failure : MemoryKind

pub MemoryScope-discrete : Discrete MemoryScope
MemoryScope-discrete = hlevel

pub MemoryKind-discrete : Discrete MemoryKind
MemoryKind-discrete = hlevel

unfoldable pub same_scope : MemoryScope → MemoryScope → Bool
unfolding MemoryScope-discrete decide
same_scope a b = decide (MemoryScope-discrete a b)

-- `kind in kinds`
unfoldable pub is_kind_in : MemoryKind → List MemoryKind → Bool
unfolding MemoryKind-discrete decide
is_kind_in kind kinds = any (λ k. decide (MemoryKind-discrete k kind)) kinds

pub record Evidence : Type 0 where
  pub source : String
  pub tool_observation_id : Option String
  pub journal_correlation_id : Option String

-- `ValueError` of the records, and of `compute_expiry`
pub data ValueError : Type 0 where
  empty_source no_reference empty_content bad_confidence bad_ttl bad_limit : ValueError

abbrev is_none : Option String → Bool
is_none none = true
is_none (some s) = false

-- `Evidence.__post_init__`
unfoldable pub evidence_post_init : Evidence → Result ValueError Evidence
unfolding strip
evidence_post_init e =
    if is_blank (strip e.source)
    then err empty_source
    else if is_none e.tool_observation_id && is_none e.journal_correlation_id
    then err no_reference
    else ok e

pub record MemoryItem : Type 0 where
  pub memory_id : String
  pub content : String
  pub kind : MemoryKind
  pub scope : MemoryScope
  pub scope_ref : String
  pub source : String
  pub confidence : ℕ
  pub evidence : Option Evidence
  pub created_at : ℕ
  pub expires_at : Option ℕ
  pub status : MemoryStatus

-- The confidence 1.0
abbrev pub certain : ℕ
certain = 1000000

-- `MemoryItem.__post_init__`
unfoldable pub item_post_init : MemoryItem → Result ValueError MemoryItem
unfolding strip
item_post_init item =
    if is_blank (strip item.content)
    then err empty_content
    else if ltb certain item.confidence
    then err bad_confidence
    else ok item

pub record MemoryDraft : Type 0 where
  pub content : String
  pub kind : MemoryKind
  pub scope : MemoryScope
  pub scope_ref : String
  pub source : String
  pub confidence : ℕ
  pub evidence : Option Evidence
  pub ttl : Option ℕ

unfoldable pub compute_expiry : ℕ → Option ℕ → Result ValueError (Option ℕ)
compute_expiry created_at none = ok none
compute_expiry created_at (some ttl) =
    if leb ttl 0 then err bad_ttl else ok (some (created_at + ttl))

pub record MemorySearchQuery : Type 0 where
  pub scope : MemoryScope
  pub scope_ref : String
  pub kinds : List MemoryKind
  pub include_stale : Bool
  pub min_confidence : ℕ
  pub text_substring : String
  pub limit : ℕ

-- `MemorySearchQuery.__post_init__`
unfoldable pub query_post_init : MemorySearchQuery → Result ValueError MemorySearchQuery
query_post_init query =
    if ltb query.limit 1
    then err bad_limit
    else if ltb certain query.min_confidence
    then err bad_confidence
    else ok query

-- `PromotionDecision`, with the kind of its reason
pub data Reason : Type 0 where
  not_candidate : MemoryStatus → Reason
  no_evidence below_threshold gate_passed : Reason

pub record PromotionDecision : Type 0 where
  pub memory_id : String
  pub promoted : Bool
  pub reason : Reason

abbrev pub promotion_min_confidence : ℕ
promotion_min_confidence = 500000

abbrev decision : MemoryItem → Bool → Reason → PromotionDecision
decision item promoted reason = record {
  memory_id = item.memory_id;
  promoted = promoted;
  reason = reason;
}

-- The tests of a candidate
abbrev check_candidate : ℕ → Option Evidence → MemoryItem → PromotionDecision
check_candidate min_confidence none item = decision item false no_evidence
check_candidate min_confidence (some e) item =
    if ltb item.confidence min_confidence
    then decision item false below_threshold
    else decision item true gate_passed

abbrev check_status : ℕ → MemoryStatus → MemoryItem → PromotionDecision
check_status min_confidence candidate item = check_candidate min_confidence item.evidence item
check_status min_confidence other item = decision item false (not_candidate other)

-- `PromotionGate.evaluate`; the gate is its `min_confidence`, and the time of the check is left out.
unfoldable pub evaluate : ℕ → MemoryItem → PromotionDecision
evaluate min_confidence item = check_status min_confidence item.status item

pub record MemoryQuality : Type 0 where
  pub provenance : ℕ
  pub freshness : ℕ
  pub reuse_success : ℕ
  pub corrections : ℕ

-- `MemoryQuality.score`, in thousandths: 0.8 * (0.5 * provenance + 0.3 * freshness) + 0.2 * reuse less
-- the penalty, cut off at 0 and at 1
unfoldable pub score : MemoryQuality → ℕ
score q =
    let base : ℕ = 40 * q.provenance + 24 * q.freshness in
    let reuse : ℕ = 20 * min 10 q.reuse_success in
    let penalty : ℕ = 100 * min 5 q.corrections in min 1000 (base + reuse - penalty)

pub record MemoryRecord : Type 0 where
  pub item : MemoryItem
  pub reuse_count : ℕ
  pub correction_count : ℕ
  pub superseded_by : Option String
