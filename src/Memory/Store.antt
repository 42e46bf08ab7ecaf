-- ===== src/Memory/Store.antt =====
-- src/xenopus/memory/store.py: the table of memories. SQLite's LIKE is a parameter, the id that uuid4
-- draws and the clock's time are arguments.
pub mod Trust
pub mod Expiry
pub mod Promotions
pub mod Contents
pub mod Searches
mod Tests
use xenopus.Prelude.{
  ℕ, suc, ◌+◌, Bool, true, false, ◌&&◌, ◌||◌, not, Option, none, some, List, [], ◌∷◌, ◌++◌, String,
  str_eq, Result, ok, err, ltb, leb, filter, map, take, is_empty, if◌then◌else◌, ◌==◌,
}
use xenopus.Prelude.Dict.{Dict, lookup, has, keys}
use xenopus.Prelude.Sort.{sort_by}
use xenopus.Prelude.Strip.{strip}
use xenopus.Prelude.Tables.{alter, append_row}
use xenopus.Memory.Types.{
  MemoryStatus, candidate, active, stale, superseded, expired, rejected, MemoryScope, same_scope,
  is_kind_in, ValueError, MemoryItem, item_post_init, MemoryDraft, compute_expiry,
  MemorySearchQuery, Reason, PromotionDecision, evaluate, MemoryQuality, MemoryRecord, Evidence,
}

-- `ValueError`, what the messages of `MemoryError` tell apart, and SQLite's refusal of a second row of
-- one key
pub data StoreError : Type 0 where
  value_error : ValueError → StoreError
  refused : Reason → StoreError
  not_candidate not_active : MemoryStatus → StoreError
  other_scope unknown_memory integrity_error : StoreError

abbrev pub Memories : Type 0
Memories = Dict MemoryRecord

abbrev pub Answer : Type 0
Answer = Result StoreError MemoryRecord

abbrev pub row_or_unknown : Option MemoryRecord → Answer
row_or_unknown none = err unknown_memory
row_or_unknown (some row) = ok row

unfoldable pub get : String → Memories → Answer
unfolding lookup
get memory_id table = row_or_unknown (lookup memory_id table)

abbrev pub candidate_of : String → ℕ → MemoryDraft → String → Option ℕ → MemoryItem
candidate_of memory_id now draft content expires_at = record {
  memory_id = memory_id;
  content = content;
  kind = draft.kind;
  scope = draft.scope;
  scope_ref = draft.scope_ref;
  source = draft.source;
  confidence = draft.confidence;
  evidence = draft.evidence;
  created_at = now;
  expires_at = expires_at;
  status = candidate;
}

abbrev pub new_record : MemoryItem → MemoryRecord
new_record item = record {
  item = item;
  reuse_count = 0;
  correction_count = 0;
  superseded_by = none;
}

-- `_insert`, for an item that its constructor accepted
abbrev pub insert_item : Result ValueError MemoryItem → Memories → Answer × Memories
insert_item (err e) table = (err (value_error e), table)
insert_item (ok item) table =
    if has item.memory_id table
    then (err integrity_error, table)
    else (ok (new_record item), append_row item.memory_id (new_record item) table)

abbrev pub create_with :
    Result ValueError (Option ℕ) → String → ℕ → MemoryDraft → Memories → Answer × Memories
create_with (err e) memory_id now draft table = (err (value_error e), table)
create_with (ok expires_at) memory_id now draft table =
    insert_item (item_post_init (candidate_of memory_id now draft (strip draft.content) expires_at))
      table

unfoldable pub create : String → ℕ → MemoryDraft → Memories → Answer × Memories
unfolding compute_expiry item_post_init strip has
create memory_id now draft table =
    create_with (compute_expiry now draft.ttl) memory_id now draft table

abbrev pub set_status : MemoryStatus → MemoryRecord → MemoryRecord
set_status status r = record r { item = record r.item { status = status } }

-- An `UPDATE` of the row, and `get`
unfoldable pub update : String → (MemoryRecord → MemoryRecord) → Memories → Answer × Memories
unfolding alter get
update memory_id f table = let table' = alter memory_id f table in (get memory_id table', table')

abbrev pub with_row :
    {A : Type 0}
    → Answer
    → (MemoryRecord → Result StoreError A × Memories)
    → Memories
    → Result StoreError A × Memories
with_row (err e) f table = (err e, table)
with_row (ok row) f table = f row

abbrev pub if_promoted : PromotionDecision → String → Memories → Answer × Memories
if_promoted decision memory_id table =
    if decision.promoted
    then update memory_id (set_status active) table
    else (err (refused decision.reason), table)

unfoldable pub promote : ℕ → String → Memories → Answer × Memories
unfolding get evaluate update
promote min_confidence memory_id table =
    with_row (get memory_id table)
      (λ r. if_promoted (evaluate min_confidence r.item) memory_id table) table

abbrev pub if_candidate : MemoryStatus → String → Memories → Answer × Memories
if_candidate candidate memory_id table = update memory_id (set_status rejected) table
if_candidate other memory_id table = (err (not_candidate other), table)

unfoldable pub reject : String → Memories → Answer × Memories
unfolding get update
reject memory_id table =
    with_row (get memory_id table) (λ r. if_candidate r.item.status memory_id table) table

abbrev pub superseded_with : String → MemoryRecord → MemoryRecord
superseded_with replacement r = record r {
  item = record r.item { status = superseded };
  superseded_by = some replacement;
}

-- What `supersede` does with the answer of `create`
abbrev pub replace_by :
    Answer × Memories → String → Result StoreError (MemoryRecord × MemoryRecord) × Memories
replace_by (err e, table) memory_id = (err e, table)
replace_by (ok replacement, table) memory_id =
    let (old, table') = update memory_id (superseded_with replacement.item.memory_id) table in
    with_row old (λ r. (ok (r, replacement), table')) table'

unfoldable pub supersede :
    (memory_id new_id : String) (now : ℕ)
    → MemoryDraft
    → Memories
    → Result StoreError (MemoryRecord × MemoryRecord) × Memories
unfolding get same_scope create update
supersede memory_id new_id now draft table =
    with_row (get memory_id table)
      (λ r.
        if same_scope r.item.scope draft.scope && str_eq r.item.scope_ref draft.scope_ref
        then replace_by (create new_id now draft table) memory_id
        else (err other_scope, table))
      table

unfoldable pub record_reuse : String → Memories → Answer × Memories
unfolding update
record_reuse memory_id table =
    update memory_id (λ r. record r { reuse_count = r.reuse_count + 1 }) table

unfoldable pub record_correction : String → Memories → Answer × Memories
unfolding update
record_correction memory_id table =
    update memory_id (λ r. record r { correction_count = r.correction_count + 1 }) table

abbrev pub if_active : MemoryStatus → String → Memories → Answer × Memories
if_active active memory_id table = update memory_id (set_status stale) table
if_active other memory_id table = (err (not_active other), table)

unfoldable pub mark_stale : String → Memories → Answer × Memories
unfolding get update
mark_stale memory_id table =
    with_row (get memory_id table) (λ r. if_active r.item.status memory_id table) table

abbrev pub is_active : MemoryStatus → Bool
is_active active = true
is_active _ = false

-- `expires_at IS NOT NULL AND expires_at <= now`
abbrev pub is_past : ℕ → Option ℕ → Bool
is_past now none = false
is_past now (some at) = leb at now

unfoldable pub is_lapsed : ℕ → MemoryRecord → Bool
is_lapsed now r = is_active r.item.status && is_past now r.item.expires_at

-- The loop of `expire_stale`
unfoldable pub expire_each : List String → Memories → List Answer × Memories
unfolding update
expire_each [] table = ([], table)
expire_each (memory_id ∷ ids) table =
    let (row, table') = update memory_id (set_status expired) table in
    let (rows, table'') = expire_each ids table' in (row ∷ rows, table'')

unfoldable pub expire_stale : ℕ → Memories → List Answer × Memories
unfolding is_lapsed expire_each
expire_stale now table = expire_each (keys (filter (λ e. is_lapsed now e.1) table)) table

-- `status IN (?, ?)`, for the statuses of the query
abbrev pub is_lookable : Bool → MemoryStatus → Bool
is_lookable include_stale active = true
is_lookable include_stale stale = include_stale
is_lookable include_stale _ = false

-- `ORDER BY confidence DESC, created_at DESC`; ties stay in the order of the table.
unfoldable pub ranks_before : MemoryRecord → MemoryRecord → Bool
ranks_before a b =
    if a.item.confidence == b.item.confidence
    then leb b.item.created_at a.item.created_at
    else ltb b.item.confidence a.item.confidence

module _ (like : String → String → Bool) where
  -- The conditions of the `SELECT`, with the text between wildcards left to `like`
  unfoldable pub selects : MemorySearchQuery → MemoryRecord → Bool
  unfolding same_scope
  selects query r =
      (same_scope r.item.scope query.scope && str_eq r.item.scope_ref query.scope_ref)
      && (is_lookable query.include_stale r.item.status
          && (leb query.min_confidence r.item.confidence
              && like query.text_substring r.item.content))

  -- The rows of the `SELECT`
  unfoldable pub matches : MemorySearchQuery → Memories → List MemoryRecord
  unfolding selects sort_by ranks_before
  matches query table = sort_by ranks_before (filter (selects query) (map (λ e. e.1) table))

  unfoldable pub search : MemorySearchQuery → Memories → List MemoryRecord
  unfolding matches is_kind_in
  search query table =
      let records = take query.limit (matches query table) in
      if is_empty query.kinds
      then records
      else filter (λ r. is_kind_in r.item.kind query.kinds) records

abbrev pub tenths_of : Option Evidence → ℕ
tenths_of none = 3
tenths_of (some e) = 10

abbrev pub freshness_of : Option ℕ → ℕ
freshness_of none = 10
freshness_of (some at) = 7

abbrev pub quality_of : MemoryRecord → MemoryQuality
quality_of r = record {
  provenance = tenths_of r.item.evidence;
  freshness = freshness_of r.item.expires_at;
  reuse_success = r.reuse_count;
  corrections = r.correction_count;
}

unfoldable pub quality : String → Memories → Result StoreError MemoryQuality
unfolding get
quality memory_id table = elim (get memory_id table) [ ok r ↦ ok (quality_of r) | err e ↦ err e ]
