-- ===== src/Memory/Store/Trust.antt =====
-- Items that the promotion gate backs, and the writes that keep a table of them.
use xenopus.Prelude.{
  ℕ, ◌≡◌, refl, Bool, true, false, ◌&&◌, Option, none, some, String, Result, ok, err, arith, leb,
  Bool-cases, Option-cases, inl, inr, if◌then◌else◌,
}
use xenopus.Prelude.Dict.{lookup, has}
use xenopus.Prelude.Tables.{
  Rows, Rows-alter, Rows-append_row, IsKeyed, alter-IsKeyed, append_row-IsKeyed,
}
use xenopus.Memory.Types.{
  MemoryStatus, candidate, active, stale, superseded, expired, archived, rejected, Evidence,
  ValueError, MemoryItem, MemoryRecord, evaluate,
}
use xenopus.Memory.Store.{Memories, StoreError, get, insert_item, new_record, update, with_row}

abbrev pub has_evidence : Option Evidence → Bool
has_evidence none = false
has_evidence (some e) = true

-- What the gate asks of an item
abbrev pub deserves : ℕ → MemoryRecord → Bool
deserves gate r = has_evidence r.item.evidence && leb gate r.item.confidence

-- Statuses that only a promoted item reaches
abbrev pub needs_trust : MemoryStatus → Bool
needs_trust active = true
needs_trust stale = true
needs_trust expired = true
needs_trust _ = false

-- An item with such a status deserves it.
abbrev pub is_backed : ℕ → MemoryRecord → Bool
is_backed gate r = if needs_trust r.item.status then deserves gate r else true

-- No id is taken twice, and every item is backed.
abbrev pub Trusted : ℕ → Memories → Type 0
Trusted gate table = IsKeyed table × Rows (λ r. is_backed gate r ≡ true) table

pub check-deserves :
    (gate : ℕ) (status : MemoryStatus) (e : Option Evidence) (item : MemoryItem)
    → item.status ≡ status
    → item.evidence ≡ e
    → (evaluate gate item).promoted ≡ true
    → (has_evidence item.evidence && leb gate item.confidence) ≡ true
unfolding evaluate
check-deserves gate candidate none item s e h = ground (arith, rw (s, e, evaluate) at h)
check-deserves gate candidate (some x) item s e h = rw e (ground (arith, rw (s, e, evaluate) at h))
check-deserves gate active e item s f h = cc (rw (s, evaluate) at h)
check-deserves gate stale e item s f h = cc (rw (s, evaluate) at h)
check-deserves gate superseded e item s f h = cc (rw (s, evaluate) at h)
check-deserves gate expired e item s f h = cc (rw (s, evaluate) at h)
check-deserves gate archived e item s f h = cc (rw (s, evaluate) at h)
check-deserves gate rejected e item s f h = cc (rw (s, evaluate) at h)

module _ (P : Memories → Type 0) {A : Type 0} (k : String) (table : Memories)
    (f : MemoryRecord → Result StoreError A × Memories) where
  pub with_row_ind :
      P table
      → ((r : MemoryRecord) → lookup k table ≡ some r → P (f r).1)
      → P (with_row (get k table) f table).1
  unfolding get
  with_row_ind missing found = elim (Option-cases (lookup k table)) [
    | inl e ↦ rw e missing
    | inr (r, e) ↦ rw e (found r e)
  ]

pub update-Trusted :
    (gate : ℕ) (k : String) (f : MemoryRecord → MemoryRecord) (table : Memories)
    → ((r : MemoryRecord)
        → lookup k table ≡ some r
        → is_backed gate r ≡ true
        → is_backed gate (f r) ≡ true)
    → Trusted gate table
    → Trusted gate (update k f table).1
unfolding update
update-Trusted gate k f table step (keyed, rows) =
    (alter-IsKeyed k f table keyed, Rows-alter (λ r. is_backed gate r ≡ true) k f table step rows)

pub insert_item-Trusted :
    (gate : ℕ) (item : Result ValueError MemoryItem) (table : Memories)
    → ((i : MemoryItem) → item ≡ ok i → i.status ≡ candidate)
    → Trusted gate table
    → Trusted gate (insert_item item table).1
insert_item-Trusted gate (err e) table h t = t
insert_item-Trusted gate (ok item) table h (keyed, rows) =
    elim (Bool-cases (has item.memory_id table)) [
      | inl old ↦ rw old (keyed, rows)
      | inr new ↦ rw new (
        append_row-IsKeyed item.memory_id (new_record item) table new keyed,
        Rows-append_row (λ r. is_backed gate r ≡ true) item.memory_id (new_record item) table rows
            (ground (arith, h item refl)),
      )
    ]
