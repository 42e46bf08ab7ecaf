-- ===== src/Memory/Store/Searches.antt =====
-- What a search returns.
use mathlib.Core.Bool.{decide}
use xenopus.Prelude.{
  ℕ, zero, suc, ◌≤◌, ◌≡◌, refl, Bool, true, false, List, [], ◌∷◌, ◌++◌, String, str_eq_iff, arith,
  length, take, filter, map, is_empty, All, All-map, length-filter-le, Bool-cases, inl, inr,
}
use xenopus.Prelude.Sort.{All-sort_by}
use xenopus.Memory.Types.{
  MemoryScope, MemoryScope-discrete, MemoryKind, same_scope, is_kind_in, MemorySearchQuery,
  MemoryRecord,
}
use xenopus.Memory.Store.{Memories, is_lookable, ranks_before, selects, matches, search}

All-filter_self :
    (p : MemoryRecord → Bool) (rs : List MemoryRecord) → All (λ r. p r ≡ true) (filter p rs)
All-filter_self p [] = tt
All-filter_self p (r ∷ rs) = elim (Bool-cases (p r)) [
  | inl e ↦ rw e (e, All-filter_self p rs)
  | inr e ↦ rw e (All-filter_self p rs)
]

All-filter :
    (P : MemoryRecord → Type 0) (p : MemoryRecord → Bool) (rs : List MemoryRecord)
    → All P rs
    → All P (filter p rs)
All-filter P p [] h = tt
All-filter P p (r ∷ rs) (q, h) = elim (Bool-cases (p r)) [
  | inl e ↦ rw e (q, All-filter P p rs h)
  | inr e ↦ rw e (All-filter P p rs h)
]

All-take :
    (P : MemoryRecord → Type 0) (n : ℕ) (rs : List MemoryRecord) → All P rs → All P (take n rs)
All-take P zero rs h = tt
All-take P (suc n) [] h = tt
All-take P (suc n) (r ∷ rs) (p, h) = (p, All-take P n rs h)

length-take-le : (n : ℕ) (rs : List MemoryRecord) → length (take n rs) ≤ n
length-take-le zero rs = omega arith
length-take-le (suc n) [] = omega arith
length-take-le (suc n) (r ∷ rs) = omega (arith, length-take-le n rs)

take_prefix :
    (n : ℕ) (first rest : List MemoryRecord) → length first ≡ n → take n (first ++ rest) ≡ first
take_prefix zero [] rest h = refl
take_prefix zero (r ∷ first) rest h = absurd (omega arith)
take_prefix (suc n) [] rest h = absurd (omega arith)
take_prefix (suc n) (r ∷ first) rest h = ground (arith, take_prefix n first rest)

-- What the query promises of a record
pub record Fits (query : MemorySearchQuery) (r : MemoryRecord) : Type 0 where
  pub scope : r.item.scope ≡ query.scope
  pub scope_ref : r.item.scope_ref ≡ query.scope_ref
  pub status : is_lookable query.include_stale r.item.status ≡ true
  pub confidence : query.min_confidence ≤ r.item.confidence

of_decide : {A : Type 0} (d : Dec A) → decide d ≡ true → A
unfolding decide
of_decide (yes a) h = a
of_decide (no n) h = cc

same_scope_eq : (a b : MemoryScope) → same_scope a b ≡ true → a ≡ b
unfolding same_scope
same_scope_eq a b h = of_decide (MemoryScope-discrete a b) h

module _ (like : String → String → Bool) where
  selects-Fits :
      (query : MemorySearchQuery) (r : MemoryRecord) → selects like query r ≡ true → Fits query r
  unfolding selects
  selects-Fits query r h = record {
    scope = same_scope_eq r.item.scope query.scope (ground arith);
    scope_ref = (str_eq_iff r.item.scope_ref query.scope_ref).0 (ground arith);
    status = ground arith;
    confidence = ground arith;
  }

  matches-Fits :
      (query : MemorySearchQuery) (table : Memories) → All (Fits query) (matches like query table)
  unfolding matches
  matches-Fits query table =
      let rows = map (λ e. e.1) table in
      All-sort_by ranks_before (Fits query) (filter (selects like query) rows) (
        All-map (λ r. selects like query r ≡ true) (Fits query) (selects-Fits query)
          (filter (selects like query) rows) (All-filter_self (selects like query) rows))

  -- A search returns at most as many records as its limit, all of the scope and the reference that it
  -- names, ACTIVE or, when it asks for them, STALE, and with at least the confidence that it asks for.
  pub search-Fits :
      (query : MemorySearchQuery) (table : Memories)
      → All (Fits query) (search like query table)
        × (length (search like query table) ≤ query.limit)
  unfolding search
  search-Fits query table =
      let records = take query.limit (matches like query table) in
      let fits =
        All-take (Fits query) query.limit (matches like query table) (matches-Fits query table) in
      let short = length-take-le query.limit (matches like query table) in
      elim (Bool-cases (is_empty query.kinds)) [
        | inl e ↦ rw e (fits, short)
        | inr e ↦ rw e (
          All-filter (Fits query) (λ r. is_kind_in r.item.kind query.kinds) records fits,
          omega (
            arith,
            short,
            length-filter-le {0} (λ (r : MemoryRecord). is_kind_in r.item.kind query.kinds) records,
          ),
        )
      ]

  none_of_kind :
      (kinds : List MemoryKind) (rs : List MemoryRecord)
      → All (λ r. is_kind_in r.item.kind kinds ≡ false) rs
      → filter (λ r. is_kind_in r.item.kind kinds) rs ≡ []
  none_of_kind kinds [] h = refl
  none_of_kind kinds (r ∷ rs) (e, h) = rw e (none_of_kind kinds rs h)

  -- When as many matches as the limit are of other kinds and rank before the rest, a search for some
  -- kinds returns nothing, whatever the rest holds.
  pub search-kinds_after_limit :
      (query : MemorySearchQuery) (table : Memories) (first rest : List MemoryRecord)
      → is_empty query.kinds ≡ false
      → matches like query table ≡ first ++ rest
      → length first ≡ query.limit
      → All (λ r. is_kind_in r.item.kind query.kinds ≡ false) first
      → search like query table ≡ []
  unfolding search
  search-kinds_after_limit query table first rest some_kinds ranked full other =
      rw (ranked, some_kinds, take_prefix query.limit first rest full)
        (none_of_kind query.kinds first other)
