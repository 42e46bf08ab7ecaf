-- ===== src/Memory/Store/Contents.antt =====
-- What an item says never changes: only its status and its counters do.
use xenopus.Prelude.{
  ◌≡◌, refl, ℕ, ◌&&◌, Option, some, List, [], ◌∷◌, String, str_eq, Result, ok, err, arith, filter,
  Bool-cases, inl, inr,
}
use xenopus.Prelude.Dict.{lookup, has, keys}
use xenopus.Prelude.Tables.{alter, lookup-alter, lookup-append_row}
use xenopus.Memory.Types.{
  MemoryStatus, candidate, active, stale, expired, rejected, MemoryItem, MemoryDraft, MemoryRecord,
  ValueError, evaluate, compute_expiry, same_scope,
}
use xenopus.Memory.Store
use xenopus.Memory.Store.{
  Memories, Answer, StoreError, insert_item, new_record, create_with, update, set_status,
  if_candidate, if_active, superseded_with, replace_by, expire_each, is_lapsed,
}
use xenopus.Memory.Store.Promotions.{
  Call, create, promote, reject, record_reuse, record_correction, mark_stale, supersede,
  expire_stale, perform,
}
use xenopus.Memory.Store.Trust.{with_row_ind}

-- The same item but for its status
abbrev pub SameItem : MemoryRecord → MemoryRecord → Type 0
SameItem r q = q.item ≡ record r.item { status = q.item.status }

-- The row that stands under `k` in the table says what `r` says.
abbrev pub Says : String → MemoryRecord → Memories → Type 0
Says k r table = (q : MemoryRecord) × (lookup k table ≡ some q) × SameItem r q

module _ (k : String) (r : MemoryRecord) where
  update-Says :
      (j : String) (f : MemoryRecord → MemoryRecord) (table : Memories)
      → ((q : MemoryRecord) → SameItem q (f q))
      → Says k r table
      → Says k r (update j f table).1
  unfolding update
  update-Says j f table same (q, found, h) = elim (Bool-cases (str_eq j k)) [
    | inl e ↦ (f q, rw (lookup-alter j k f table, e, found) refl, ground (arith, same q))
    | inr e ↦ (q, rw (lookup-alter j k f table, e) found, h)
  ]

  insert_item-Says :
      (item : Result ValueError MemoryItem) (table : Memories)
      → Says k r table
      → Says k r (insert_item item table).1
  insert_item-Says (err e) table h = h
  insert_item-Says (ok item) table (q, found, h) = elim (Bool-cases (has item.memory_id table)) [
    | inl old ↦ rw old (q, found, h)
    | inr new ↦ rw new (q, lookup-append_row item.memory_id k (new_record item) q table found, h)
  ]

  create-Says :
      (new_id : String) (now : ℕ) (draft : MemoryDraft) (table : Memories)
      → Says k r table
      → Says k r (Store.create new_id now draft table).1
  unfolding Store.create
  create-Says new_id now draft table h = go (compute_expiry now draft.ttl)
    where
      go : (e : Result ValueError (Option ℕ)) → Says k r (create_with e new_id now draft table).1
      go (err e) = h
      go (ok at) = insert_item-Says _ table h

  if_candidate-Says :
      (s : MemoryStatus) (j : String) (table : Memories)
      → Says k r table
      → Says k r (if_candidate s j table).1
  if_candidate-Says candidate j table h = update-Says j (set_status rejected) table (λ q. refl) h
  if_candidate-Says _ j table h = h

  if_active-Says :
      (s : MemoryStatus) (j : String) (table : Memories)
      → Says k r table
      → Says k r (if_active s j table).1
  if_active-Says active j table h = update-Says j (set_status stale) table (λ q. refl) h
  if_active-Says _ j table h = h

  replace_by-Says :
      (made : Answer × Memories) (j : String) → Says k r made.1 → Says k r (replace_by made j).1
  unfolding update
  replace_by-Says (err e, table) j h = h
  replace_by-Says (ok new, table) j h =
      let h' = update-Says j (superseded_with new.item.memory_id) table (λ q. refl) h in
      with_row_ind (Says k r) j (alter j (superseded_with new.item.memory_id) table) _ h'
        (λ q found. h')

  expire_each-Says :
      (ids : List String) (table : Memories) → Says k r table → Says k r (expire_each ids table).1
  unfolding expire_each
  expire_each-Says [] table h = h
  expire_each-Says (j ∷ ids) table h =
      expire_each-Says ids (update j (set_status expired) table).1
        (update-Says j (set_status expired) table (λ q. refl) h)

  -- Whatever call is made, a stored item stays stored under its id, with the same content, kind, scope,
  -- source, confidence, evidence and times: of the item only the status may change.
  pub perform-Says :
      (gate : ℕ) (c : Call) (table : Memories) → Says k r table → Says k r (perform gate c table)
  unfolding perform Store.promote Store.reject Store.record_reuse Store.record_correction
      Store.mark_stale Store.supersede Store.expire_stale
  perform-Says gate (create new_id now draft) table h = create-Says new_id now draft table h
  perform-Says gate (promote j) table h = with_row_ind (Says k r) j table _ h (λ q found.
      elim (Bool-cases (evaluate gate q.item).promoted) [
        | inl e ↦ rw e (update-Says j (set_status active) table (λ x. refl) h)
        | inr e ↦ rw e h
      ])
  perform-Says gate (reject j) table h =
      with_row_ind (Says k r) j table _ h (λ q found. if_candidate-Says q.item.status j table h)
  perform-Says gate (record_reuse j) table h = update-Says j _ table (λ q. refl) h
  perform-Says gate (record_correction j) table h = update-Says j _ table (λ q. refl) h
  perform-Says gate (mark_stale j) table h =
      with_row_ind (Says k r) j table _ h (λ q found. if_active-Says q.item.status j table h)
  perform-Says gate (supersede j new_id now draft) table h =
      with_row_ind (Says k r) j table _ h (λ q found.
        elim (Bool-cases
          (same_scope q.item.scope draft.scope && str_eq q.item.scope_ref draft.scope_ref)) [
            | inl e ↦ rw e (
                replace_by-Says (Store.create new_id now draft table) j
                  (create-Says new_id now draft table h))
            | inr e ↦ rw e h
          ])
  perform-Says gate (expire_stale now) table h =
      expire_each-Says (keys (filter (λ e. is_lapsed now e.1) table)) table h
