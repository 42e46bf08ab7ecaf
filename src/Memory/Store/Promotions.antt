-- ===== src/Memory/Store/Promotions.antt =====
-- What every call on the store keeps: trust is earned at the gate.
use xenopus.Prelude.{
  ℕ, ◌+◌, ◌≡◌, refl, true, ◌&&◌, Option, some, String, str_eq, Result, ok, err, arith, Bool-cases,
  inl, inr,
}
use xenopus.Prelude.Dict.{lookup}
use xenopus.Prelude.Strip.{strip}
use xenopus.Prelude.Tables.{alter, Rows-lookup}
use xenopus.Memory.Types.{
  MemoryStatus, candidate, active, stale, rejected, ValueError, MemoryItem, MemoryDraft,
  MemoryRecord, same_scope, evaluate, item_post_init, compute_expiry,
}
use xenopus.Memory.Store
use xenopus.Memory.Store.{
  Memories, Answer, StoreError, get, insert_item, new_record, candidate_of, create_with, update,
  set_status, with_row, if_promoted, if_candidate, if_active, superseded_with, replace_by,
  expire_each, is_lapsed, is_active,
}
use xenopus.Memory.Store.Trust.{
  is_backed, Trusted, check-deserves, with_row_ind, update-Trusted, insert_item-Trusted,
}
use xenopus.Memory.Store.Expiry.{expire_stale-Trusted}

-- One call of a method. Ids and times come from the caller.
pub data Call : Type 0 where
  create : (new_id : String) (now : ℕ) → MemoryDraft → Call
  promote reject record_reuse record_correction mark_stale : String → Call
  supersede : (memory_id new_id : String) (now : ℕ) → MemoryDraft → Call
  expire_stale : ℕ → Call

-- The table after the call, whether it returns or raises
unfoldable pub perform : ℕ → Call → Memories → Memories
perform gate (create new_id now draft) table = (Store.create new_id now draft table).1
perform gate (promote k) table = (Store.promote gate k table).1
perform gate (reject k) table = (Store.reject k table).1
perform gate (record_reuse k) table = (Store.record_reuse k table).1
perform gate (record_correction k) table = (Store.record_correction k table).1
perform gate (mark_stale k) table = (Store.mark_stale k table).1
perform gate (supersede k new_id now draft) table = (Store.supersede k new_id now draft table).1
perform gate (expire_stale now) table = (Store.expire_stale now table).1

item_post_init-same : (item i : MemoryItem) → item_post_init item ≡ ok i → i.status ≡ item.status
unfolding item_post_init
item_post_init-same item i h = ground arith

create-Trusted :
    (gate : ℕ) (new_id : String) (now : ℕ) (draft : MemoryDraft) (table : Memories)
    → Trusted gate table
    → Trusted gate (Store.create new_id now draft table).1
unfolding Store.create
create-Trusted gate new_id now draft table t = go (compute_expiry now draft.ttl)
  where
    go : (e : Result ValueError (Option ℕ)) → Trusted gate (create_with e new_id now draft table).1
    go (err e) = t
    go (ok at) =
        insert_item-Trusted gate _ table
          (λ i h. item_post_init-same (candidate_of new_id now draft (strip draft.content) at) i h)
          t

if_candidate-Trusted :
    (gate : ℕ) (status : MemoryStatus) (k : String) (table : Memories)
    → Trusted gate table
    → Trusted gate (if_candidate status k table).1
if_candidate-Trusted gate candidate k table t =
    update-Trusted gate k (set_status rejected) table (λ r e b. refl) t
if_candidate-Trusted gate _ k table t = t

if_active-Trusted :
    (gate : ℕ) (status : MemoryStatus) (k : String) (r : MemoryRecord) (table : Memories)
    → lookup k table ≡ some r
    → r.item.status ≡ status
    → Trusted gate table
    → Trusted gate (if_active status k table).1
if_active-Trusted gate active k r table found s (keyed, rows) =
    let backed = Rows-lookup (λ r. is_backed gate r ≡ true) k r table rows found in
    update-Trusted gate k (set_status stale) table (λ q e b. ground (arith, found, e, s, backed))
      (keyed, rows)
if_active-Trusted gate _ k r table found s t = t

promote-Trusted :
    (gate : ℕ) (k : String) (table : Memories)
    → Trusted gate table
    → Trusted gate (Store.promote gate k table).1
unfolding Store.promote
promote-Trusted gate k table t = with_row_ind (Trusted gate) k table _ t (λ r found.
    elim (Bool-cases (evaluate gate r.item).promoted) [
      | inl yes_ ↦
          let good = check-deserves gate r.item.status r.item.evidence r.item refl refl yes_ in
          rw yes_ (
            update-Trusted gate k (set_status active) table
              (λ q e b. ground (arith, found, e, good)) t)
      | inr no_ ↦ rw no_ t
    ])

replace_by-Trusted :
    (gate : ℕ) (made : Answer × Memories) (k : String)
    → Trusted gate made.1
    → Trusted gate (replace_by made k).1
unfolding update
replace_by-Trusted gate (err e, table) k t = t
replace_by-Trusted gate (ok r, table) k t =
    let t' = update-Trusted gate k (superseded_with r.item.memory_id) table (λ q e b. refl) t in
    with_row_ind (Trusted gate) k (alter k (superseded_with r.item.memory_id) table) _ t'
      (λ q found. t')

supersede-Trusted :
    (gate : ℕ) (k new_id : String) (now : ℕ) (draft : MemoryDraft) (table : Memories)
    → Trusted gate table
    → Trusted gate (Store.supersede k new_id now draft table).1
unfolding Store.supersede
supersede-Trusted gate k new_id now draft table t =
    with_row_ind (Trusted gate) k table _ t (λ r found.
      elim (Bool-cases
        (same_scope r.item.scope draft.scope && str_eq r.item.scope_ref draft.scope_ref)) [
          | inl e ↦ rw e (
              replace_by-Trusted gate (Store.create new_id now draft table) k
                (create-Trusted gate new_id now draft table t))
          | inr e ↦ rw e t
        ])

-- Over any calls, in any order: no id is taken twice, and an item that is ACTIVE, STALE or EXPIRED has
-- evidence and at least the confidence that the gate asks for.
pub perform-Trusted :
    (gate : ℕ) (c : Call) (table : Memories)
    → Trusted gate table
    → Trusted gate (perform gate c table)
unfolding perform Store.reject Store.record_reuse Store.record_correction Store.mark_stale
perform-Trusted gate (create new_id now draft) table t =
    create-Trusted gate new_id now draft table t
perform-Trusted gate (promote k) table t = promote-Trusted gate k table t
perform-Trusted gate (reject k) table t =
    with_row_ind (Trusted gate) k table _ t
      (λ r found. if_candidate-Trusted gate r.item.status k table t)
perform-Trusted gate (record_reuse k) table t =
    update-Trusted gate k (λ r. record r { reuse_count = r.reuse_count + 1 }) table (λ r e b. b) t
perform-Trusted gate (record_correction k) table t =
    update-Trusted gate k (λ r. record r { correction_count = r.correction_count + 1 }) table
      (λ r e b. b) t
perform-Trusted gate (mark_stale k) table t =
    with_row_ind (Trusted gate) k table _ t
      (λ r found. if_active-Trusted gate r.item.status k r table found refl t)
perform-Trusted gate (supersede k new_id now draft) table t =
    supersede-Trusted gate k new_id now draft table t
perform-Trusted gate (expire_stale now) table t = expire_stale-Trusted gate now table t
