-- ===== src/Runtime/Aggregator/Totality.antt =====
-- `aggregate` returns a report for all claims.
use mathlib.Core.List.{Memᴰ}
use xenopus.Prelude.{
  ℕ, ◌*◌, ◌≤◌, ◌≡◌, refl, Bool, true, false, none, some, List, [], ◌∷◌, ◌++◌, String, str_eq,
  str_eq_iff, ok, arith, leb, length, is_empty, All, All-map, Bool-cases, inl, inr, if◌then◌else◌,
  Result,
}
use xenopus.Prelude.Dict.{Dict, lookup, insert, keys}
use xenopus.Prelude.Sort.{sort_by, length-sort_by, All-sort_by}
use xenopus.Prelude.Text.{text_le}
use xenopus.Runtime.Aggregator.{
  Claim, Conflict, AggregationError, AggregationReport, Settled, cons_some, certain, outranks,
  rank_claims, dedupe_by_content, evidence_gap, decide_gap, resolve, settle, settle_all,
  group_claims, or_empty, total_confidence, confidence_of, report_post_init, unresolved, aggregate,
}
use xenopus.Runtime.Aggregator.Dominance.{
  settle-All, dedupe_by_content-Represented, All-dedupe_by_content,
}
use xenopus.Runtime.Aggregator.Groups.{group_of, group_claims-Sound, Sound}

abbrev accept : {A : Type 0} → A → Result AggregationError A
accept x = ok x

either_ok :
    {A : Type 0} (b : Bool) (x y : A) → (z : A) × ((if b then accept x else accept y) ≡ accept z)
either_ok true x y = (x, refl)
either_ok false x y = (y, refl)

decide_gap-total :
    (key : String) (w : Claim) (losers : List Claim) (g : ℕ)
    → (s : Settled) × (decide_gap key w losers (some g) ≡ ok s)
decide_gap-total key w losers g = either_ok (leb 1 g) _ _

resolve-total :
    (key : String) (ranked : List Claim)
    → 2 ≤ length ranked
    → (s : Settled) × (resolve key ranked ≡ ok s)
unfolding resolve evidence_gap
resolve-total key [] h = absurd (omega arith)
resolve-total key (w ∷ []) h = absurd (omega arith)
resolve-total key (w ∷ l ∷ losers) h = decide_gap-total key w (l ∷ losers) _

settle-total :
    (key : String) (ds : List Claim) → is_empty ds ≡ false → (s : Settled) × (settle key ds ≡ ok s)
unfolding settle rank_claims
settle-total key [] h = cc
settle-total key (c ∷ []) h = ((c, none), refl)
settle-total key (c ∷ d ∷ rest) h =
    resolve-total key (rank_claims (c ∷ d ∷ rest))
      (omega (arith, length-sort_by outranks (c ∷ d ∷ rest)))

nonempty_of_mem : (d : Claim) (ds : List Claim) → Memᴰ d ds → is_empty ds ≡ false
nonempty_of_mem d [] m = elim m [ ]
nonempty_of_mem d (x ∷ ds) m = refl

-- Something is left of a group.
dedupe_by_content-nonempty :
    (cs : List Claim) → is_empty cs ≡ false → is_empty (dedupe_by_content cs) ≡ false
dedupe_by_content-nonempty [] h = cc
dedupe_by_content-nonempty (c ∷ cs) h =
    let (d, m, _, _) = dedupe_by_content-Represented (c ∷ cs) c (Memᴰ.head refl) in
    nonempty_of_mem d (dedupe_by_content (c ∷ cs)) m

abbrev Filled : Dict (List Claim) → Type 0
Filled d = All (λ e. is_empty e.1 ≡ false) d

Filled-insert :
    (key : String) (v : List Claim) (d : Dict (List Claim))
    → is_empty v ≡ false
    → Filled d
    → Filled (insert key v d)
unfolding insert
Filled-insert key v [] h f = (h, tt)
Filled-insert key v ((k, w) ∷ d) h (p, f) = elim (Bool-cases (str_eq k key)) [
  | inl e ↦ rw e (h, f)
  | inr e ↦ rw e (p, Filled-insert key v d h f)
]

append_nonempty : (cs : List Claim) (c : Claim) → is_empty (cs ++ c ∷ []) ≡ false
append_nonempty [] c = refl
append_nonempty (x ∷ cs) c = refl

Filled-group_claims :
    (cs : List Claim) (d : Dict (List Claim)) → Filled d → Filled (group_claims cs d)
unfolding group_claims
Filled-group_claims [] d f = f
Filled-group_claims (c ∷ cs) d f =
    Filled-group_claims cs (insert c.key (or_empty (lookup c.key d) ++ c ∷ []) d) (
      Filled-insert c.key (or_empty (lookup c.key d) ++ c ∷ []) d
        (append_nonempty (or_empty (lookup c.key d)) c) f)

-- Each key of such a dict has a group that is not empty.
Filled-keys :
    (d : Dict (List Claim)) → Filled d → All (λ key. is_empty (group_of key d) ≡ false) (keys d)
unfolding lookup
Filled-keys [] f = tt
Filled-keys ((k, v) ∷ d) (p, f) = (
  rw ((str_eq_iff k k).1 refl) p,
  All-map (λ key. is_empty (group_of key d) ≡ false)
      (λ key. is_empty (group_of key ((k, v) ∷ d)) ≡ false) (λ key h. ground arith) (keys d)
      (Filled-keys d f),
)

-- The groups that are not empty are settled, and the winners have what all claims have.
settle_all-total :
    (P : Claim → Type 0) (ks : List String) (d : Dict (List Claim))
    → All (λ key. is_empty (group_of key d) ≡ false) ks
    → Sound P d
    → (tops : List Claim) × (conflicts : List Conflict) × (settle_all ks d ≡ ok (tops, conflicts))
      × All P tops
unfolding settle_all
settle_all-total P [] d f s = ([], [], refl, tt)
settle_all-total P (k ∷ ks) d (p, f) s =
    let left : List Claim = dedupe_by_content (group_of k d) in
    let ((t, o), settled) = settle-total k left (dedupe_by_content-nonempty (group_of k d) p) in
    let (tops, conflicts, later, all) = settle_all-total P ks d f s in
    let (_, q) =
      settle-All (λ c. (c.key ≡ k) × P c) k left t o settled
        (All-dedupe_by_content (λ c. (c.key ≡ k) × P c) (group_of k d) (s k)) in
    (t ∷ tops, cons_some o conflicts, rw (settled, later) refl, (q, all))

total_confidence-le :
    (cs : List Claim)
    → All (λ c. c.confidence ≤ certain) cs
    → total_confidence cs ≤ certain * length cs
unfolding total_confidence
total_confidence-le [] h = omega arith
total_confidence-le (c ∷ cs) (p, h) = omega (arith, total_confidence-le cs h)

confidence_of-le :
    (cs : List Claim) (n : ℕ)
    → All (λ c. c.confidence ≤ certain) cs
    → (confidence_of cs n).over ≤ certain * (confidence_of cs n).under
unfolding confidence_of
confidence_of-le [] n h = omega arith
confidence_of-le (c ∷ cs) n h = omega (arith, total_confidence-le (c ∷ cs) h)

-- For claims whose confidence is at most 1.0, in any number and on any keys, `aggregate` returns a
-- report: no empty list is indexed or minimised, and the report's own check of its confidence holds.
pub aggregate-total :
    (claims : List Claim)
    → All (λ c. c.confidence ≤ certain) claims
    → (report : AggregationReport) × (aggregate claims ≡ ok report)
unfolding aggregate report_post_init
aggregate-total claims h =
    let d : Dict (List Claim) = group_claims claims [] in
    let (tops, conflicts, ran, all) =
      settle_all-total (λ c. c.confidence ≤ certain) (sort_by text_le (keys d)) d
        (All-sort_by text_le (λ key. is_empty (group_of key d) ≡ false) (keys d)
          (Filled-keys d (Filled-group_claims claims [] tt)))
        (group_claims-Sound (λ c. c.confidence ≤ certain) claims [] h (λ key. tt)) in
    let le = confidence_of-le tops (unresolved conflicts) all in
    (
      record {
        top_claims = tops;
        conflicts = conflicts;
        confidence = confidence_of tops (unresolved conflicts);
      },
      rw ran (ground (arith, le)),
    )
