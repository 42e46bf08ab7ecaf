-- ===== src/Memory/Store/Expiry.antt =====
-- Expiry keeps the items that the promotion gate backs.
use xenopus.Prelude.{
  ℕ, ◌≡◌, refl, true, List, [], ◌∷◌, String, str_eq, arith, filter, All, All-map, Bool-cases, inl,
  inr,
}
use xenopus.Prelude.Dict.{keys}
use xenopus.Prelude.Tables.{alter, lookup-alter, Rows-lookup, Finds, keys-filter-Finds}
use xenopus.Memory.Types.{MemoryStatus, active, expired, MemoryRecord}
use xenopus.Memory.Store
use xenopus.Memory.Store.{
  Memories, Answer, StoreError, get, insert_item, new_record, candidate_of, create_with, update,
  set_status, with_row, if_promoted, if_candidate, if_active, superseded_with, replace_by,
  expire_each, is_lapsed, is_active,
}
use xenopus.Memory.Store.Trust.{deserves, is_backed, Trusted, update-Trusted}

-- While the ids of the loop name items that deserve it, expiry keeps the rest as it is.
expire_each-Trusted :
    (gate : ℕ) (ids : List String) (table : Memories)
    → All (Finds (deserves gate) table) ids
    → Trusted gate table
    → Trusted gate (expire_each ids table).1
unfolding expire_each update
expire_each-Trusted gate [] table h t = t
expire_each-Trusted gate (k ∷ ids) table ((r, found, good), h) t =
    let table' = alter k (set_status expired) table in
    expire_each-Trusted gate ids table'
      (All-map (Finds (deserves gate) table) (Finds (deserves gate) table')
        (λ j (q, there, fine). elim (Bool-cases (str_eq k j)) [
          | inl e ↦ (
            set_status expired q,
            rw (lookup-alter k j (set_status expired) table, e, there) refl,
            fine,
          )
          | inr e ↦ (q, rw (lookup-alter k j (set_status expired) table, e) there, fine)
        ])
        ids h)
      (update-Trusted gate k (set_status expired) table (λ q e b. ground (arith, found, e, good)) t)

lapsed-deserves :
    (gate now : ℕ) (r : MemoryRecord)
    → is_lapsed now r ≡ true
    → is_backed gate r ≡ true
    → deserves gate r ≡ true
unfolding is_lapsed
lapsed-deserves gate now r h b = go r.item.status refl
  where
    go : (s : MemoryStatus) → r.item.status ≡ s → deserves gate r ≡ true
    go active e = rw e at b
    go _ e = cc (rw e at h)

pub expire_stale-Trusted :
    (gate now : ℕ) (table : Memories)
    → Trusted gate table
    → Trusted gate (Store.expire_stale now table).1
unfolding Store.expire_stale
expire_stale-Trusted gate now table (keyed, rows) =
    expire_each-Trusted gate (keys (filter (λ e. is_lapsed now e.1) table)) table
      (All-map (Finds (is_lapsed now) table) (Finds (deserves gate) table)
        (λ k (r, found, lapsed). (
          r,
          found,
          lapsed-deserves gate now r lapsed
              (Rows-lookup (λ r. is_backed gate r ≡ true) k r table rows found),
        ))
        (keys (filter (λ e. is_lapsed now e.1) table))
        (keys-filter-Finds (is_lapsed now) table keyed))
      (keyed, rows)
