-- ===== src/Runtime/Aggregator/Dominance.antt =====
-- What the best claim of a group has over the others.
use mathlib.Core.List.{Memᴰ}
use xenopus.Prelude.{
  ℕ, ◌≤◌, ◌<◌, ◌≡◌, ◌⊎◌, refl, ap, ◌∙◌, inl, inr, Bool, true, false, Option, none, some, List, [],
  ◌∷◌, String, str_eq, str_eq_iff, ok, arith, leb, length, any, All, Bool-cases, Option-cases,
}
use xenopus.Prelude.Sort.{sort_by, IsTotal, Ascends, sort_by-Ascends, All-sort_by, Memᴰ-sort_by}
use xenopus.Prelude.Text.{text_le-total, text_le_trans}
use xenopus.Runtime.Aggregator.{
  Claim, Conflict, ConflictResolution, outranks, rank_claims, distinct_from, dedupe_by_content,
  evidence_gap, decide_gap, resolve, settle, is_conflict,
}

outranks-total : (a b : Claim) → outranks a b ≡ false → outranks b a ≡ true
unfolding outranks
outranks-total a b h = ground (arith, text_le-total a.claim_id b.claim_id)

outranks_trans : (a b c : Claim) → outranks a b ≡ true → outranks b c ≡ true → outranks a c ≡ true
unfolding outranks
outranks_trans a b c h k = ground (arith, text_le_trans a.claim_id b.claim_id c.claim_id)

outranks-IsTotal : IsTotal outranks
outranks-IsTotal = record { total = outranks-total; trans = outranks_trans }

-- Nothing with more evidence is ranked behind.
outranks-evidence : (a b : Claim) → outranks a b ≡ true → length b.evidence ≤ length a.evidence
unfolding outranks
outranks-evidence a b h = ground arith

-- A claim whose content was seen, or that is kept or stands behind a kept one of its content
abbrev Represented : List String → Claim → List Claim → Type 0
Represented seen c ds =
    (any (λ t. str_eq t c.content) seen ≡ true)
    ⊎ ((d : Claim) × Memᴰ d ds × (d.content ≡ c.content) × (length c.evidence ≤ length d.evidence))

Represented-weaken :
    (seen : List String) (c d : Claim) (ds : List Claim)
    → Represented seen c ds
    → Represented seen c (d ∷ ds)
Represented-weaken seen c d ds (inl h) = inl h
Represented-weaken seen c d ds (inr (e, m, same, le)) = inr (e, Memᴰ.tail m, same, le)

All-Memᴰ {ℓ} : {A : Type 0} (P : A → Type ℓ) {a : A} (xs : List A) → All P xs → Memᴰ a xs → P a
All-Memᴰ P [] h m = elim m [ ]
All-Memᴰ P (x ∷ xs) h (Memᴰ.head e) = rw e h.0
All-Memᴰ P (x ∷ xs) h (Memᴰ.tail m) = All-Memᴰ P xs h.1 m

-- What the content of `d` adds to the contents that were seen
add_seen :
    (seen : List String) (c d : Claim) (ds : List Claim)
    → length c.evidence ≤ length d.evidence
    → Represented (d.content ∷ seen) c ds
    → Represented seen c ds ⊎ (d.content ≡ c.content)
add_seen seen c d ds le (inr r) = inl (inr r)
add_seen seen c d ds le (inl h) = elim (Bool-cases (str_eq d.content c.content)) [
  | inl e ↦ inr ((str_eq_iff d.content c.content).0 e)
  | inr e ↦ inl (inl (ground arith))
]

distinct_from-Represented :
    (seen : List String) (cs : List Claim) (c : Claim)
    → Ascends outranks cs
    → Memᴰ c cs
    → Represented seen c (distinct_from seen cs)
unfolding distinct_from
distinct_from-Represented seen [] c s m = elim m [ ]
distinct_from-Represented seen (d ∷ cs) c s (Memᴰ.head e) =
    elim (Bool-cases (any (λ t. str_eq t d.content) seen)) [
      | inl old ↦ inl (rw e old)
      | inr new ↦ rw e (rw new (inr (d, Memᴰ.head refl, refl, ground arith)))
    ]
distinct_from-Represented seen (d ∷ cs) c s (Memᴰ.tail m) =
    let le = outranks-evidence d c (All-Memᴰ (λ x. outranks d x ≡ true) cs s.0 m) in
    let behind = distinct_from-Represented (d.content ∷ seen) cs c s.1 m in
    elim (add_seen seen c d (distinct_from (d.content ∷ seen) cs) le behind) [
      | inl r ↦ elim (Bool-cases (any (λ t. str_eq t d.content) seen)) [
        | inl old ↦ rw old r
        | inr new ↦ rw new (Represented-weaken seen c d (distinct_from (d.content ∷ seen) cs) r)
      ]
      | inr same ↦ elim (Bool-cases (any (λ t. str_eq t d.content) seen)) [
        | inl old ↦ inl (rw (← same) old)
        | inr new ↦ rw new (inr (d, Memᴰ.head refl, same, le))
      ]
    ]

-- Every claim of a group is left, or stands behind one of its content that is.
pub dedupe_by_content-Represented :
    (cs : List Claim) (c : Claim)
    → Memᴰ c cs
    → (d : Claim) × Memᴰ d (dedupe_by_content cs)
      × (d.content ≡ c.content)
      × (length c.evidence ≤ length d.evidence)
unfolding dedupe_by_content rank_claims
dedupe_by_content-Represented cs c m =
    elim (distinct_from-Represented [] (sort_by outranks cs) c
      (sort_by-Ascends outranks outranks-IsTotal cs) (Memᴰ-sort_by outranks cs m)) [
        | inl seen ↦ cc
        | inr r ↦ r
      ]

All-distinct_from :
    (P : Claim → Type 0) (seen : List String) (cs : List Claim)
    → All P cs
    → All P (distinct_from seen cs)
unfolding distinct_from
All-distinct_from P seen [] h = tt
All-distinct_from P seen (c ∷ cs) (p, h) = elim (Bool-cases (any (λ t. str_eq t c.content) seen)) [
  | inl old ↦ rw old (All-distinct_from P (c.content ∷ seen) cs h)
  | inr new ↦ rw new (p, All-distinct_from P (c.content ∷ seen) cs h)
]

pub All-dedupe_by_content :
    (P : Claim → Type 0) (cs : List Claim) → All P cs → All P (dedupe_by_content cs)
unfolding dedupe_by_content rank_claims
All-dedupe_by_content P cs h =
    All-distinct_from P [] (sort_by outranks cs) (All-sort_by outranks P cs h)

-- Settled without a conflict that is left open
abbrev pub is_open : Option Conflict → Bool
is_open none = false
is_open (some found) = is_conflict found.resolution

-- What the winner of a group has over a claim of it
abbrev pub Beats : Claim → Claim → Type 0
Beats t c = (c.content ≡ t.content) ⊎ (length c.evidence < length t.evidence)

evidence_gap_of_mem :
    (w : Claim) (losers : List Claim) (d : Claim)
    → Memᴰ d losers
    → (k : ℕ) × (evidence_gap w losers ≡ some k)
unfolding evidence_gap
evidence_gap_of_mem w [] d m = elim m [ ]
evidence_gap_of_mem w (c ∷ cs) d m = (_, refl)

evidence_gap-lt :
    (w : Claim) (losers : List Claim) (g : ℕ) (d : Claim)
    → evidence_gap w losers ≡ some g
    → 1 ≤ g
    → Memᴰ d losers
    → length d.evidence < length w.evidence
unfolding evidence_gap
evidence_gap-lt w [] g d e h m = elim m [ ]
evidence_gap-lt w (c ∷ cs) g d e h (Memᴰ.head same) = elim (Option-cases (evidence_gap w cs)) [
  | inl n ↦ rw same (ground (arith, rw n at e))
  | inr (k, n) ↦ rw same (ground (arith, rw n at e))
]
evidence_gap-lt w (c ∷ cs) g d e h (Memᴰ.tail m) =
    let (k, n) = evidence_gap_of_mem w cs d m in
    evidence_gap-lt w cs k d n (ground (arith, rw n at e)) m

-- The settled group that `decide_gap` returns
decide_gap-cases :
    (key : String) (w : Claim) (losers : List Claim) (gap : Option ℕ) (t : Claim)
    (o : Option Conflict)
    → decide_gap key w losers gap ≡ ok (t, o)
    → (g : ℕ) × (gap ≡ some g) × (w ≡ t) × ((is_open o ≡ true) ⊎ (1 ≤ g))
decide_gap-cases key w losers none t o h = cc
decide_gap-cases key w losers (some g) t o h = elim (Bool-cases (leb 1 g)) [
  | inl e ↦ (g, refl, cc (rw e at h), inr (ground (arith, e)))
  | inr e ↦
      let open_one : Conflict = record {
        key = key;
        resolution = ConflictResolution.conflict;
        winner = none;
        losers = w ∷ losers;
      } in
      let found : o ≡ some open_one = cc (rw e at h) in
      (g, refl, cc (rw e at h), inl (rw found refl))
]

resolve-Beats :
    (key : String) (ranked : List Claim) (t : Claim) (o : Option Conflict) (d : Claim)
    → resolve key ranked ≡ ok (t, o)
    → is_open o ≡ false
    → Memᴰ d ranked
    → Beats t d
unfolding resolve
resolve-Beats key [] t o d h closed m = elim m [ ]
resolve-Beats key (w ∷ losers) t o d h closed (Memᴰ.head e) =
    let (g, gap, same, _) = decide_gap-cases key w losers (evidence_gap w losers) t o h in
    inl (ap (λ c. c.content) (e ∙ same))
resolve-Beats key (w ∷ losers) t o d h closed (Memᴰ.tail m) =
    let (g, gap, same, wide) = decide_gap-cases key w losers (evidence_gap w losers) t o h in
    elim wide [
      | inl opened ↦ cc
      | inr le ↦ inr (rw (← same) (evidence_gap-lt w losers g d gap le m))
    ]

-- When a group is settled without an open conflict, its winner beats every claim of it.
pub settle-Beats :
    (key : String) (ds : List Claim) (t : Claim) (o : Option Conflict) (d : Claim)
    → settle key ds ≡ ok (t, o)
    → is_open o ≡ false
    → Memᴰ d ds
    → Beats t d
unfolding settle rank_claims
settle-Beats key [] t o d h closed m = elim m [ ]
settle-Beats key (c ∷ []) t o d h closed (Memᴰ.head e) =
    let same : c ≡ t = cc in inl (ap (λ x. x.content) (e ∙ same))
settle-Beats key (c ∷ []) t o d h closed (Memᴰ.tail m) = elim m [ ]
settle-Beats key (c ∷ d' ∷ rest) t o d h closed m =
    resolve-Beats key (rank_claims (c ∷ d' ∷ rest)) t o d h closed
      (Memᴰ-sort_by outranks (c ∷ d' ∷ rest) m)

resolve-All :
    (P : Claim → Type 0) (key : String) (ranked : List Claim) (t : Claim) (o : Option Conflict)
    → resolve key ranked ≡ ok (t, o)
    → All P ranked
    → P t
unfolding resolve
resolve-All P key [] t o h all = cc
resolve-All P key (w ∷ losers) t o h (p, all) =
    let (g, gap, same, _) = decide_gap-cases key w losers (evidence_gap w losers) t o h in
    rw (← same) p

-- The winner is a claim of the group.
pub settle-All :
    (P : Claim → Type 0) (key : String) (ds : List Claim) (t : Claim) (o : Option Conflict)
    → settle key ds ≡ ok (t, o)
    → All P ds
    → P t
unfolding settle rank_claims
settle-All P key [] t o h all = resolve-All P key (rank_claims []) t o h tt
settle-All P key (c ∷ []) t o h (p, _) = let same : c ≡ t = cc in rw (← same) p
settle-All P key (c ∷ d ∷ rest) t o h all =
    resolve-All P key (rank_claims (c ∷ d ∷ rest)) t o h (All-sort_by outranks P (c ∷ d ∷ rest) all)
