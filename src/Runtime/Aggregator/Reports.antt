-- ===== src/Runtime/Aggregator/Reports.antt =====
-- What a report says of the claims that it aggregates.
use mathlib.Core.List.{Memᴰ}
use xenopus.Prelude.{
  ◌≡◌, refl, sym, ◌∙◌, inl, inr, false, Option, none, some, List, [], ◌∷◌, String, ok, err, arith,
  All, Result,
}
use xenopus.Prelude.Dict.{Dict, keys}
use xenopus.Prelude.Sort.{sort_by, Memᴰ-sort_by}
use xenopus.Prelude.Text.{text_le}
use xenopus.Runtime.Aggregator.{
  Claim, Conflict, AggregationError, AggregationReport, Outcome, Settled, settle, settle_all,
  add_settled, cons_some, dedupe_by_content, group_claims, aggregate, report_of, report_post_init,
  is_conflict,
}
use xenopus.Runtime.Aggregator.Dominance.{
  Beats, is_open, settle-Beats, settle-All, dedupe_by_content-Represented, All-dedupe_by_content,
}
use xenopus.Runtime.Aggregator.Groups.{group_of, group_claims-covers, group_claims-Sound, Memᴰ-keys}

-- No conflict is left open.
abbrev pub Undisputed : List Conflict → Type 0
Undisputed conflicts = All (λ f. is_conflict f.resolution ≡ false) conflicts

add_settled-inv :
    (r : Result AggregationError Settled) (rest : Result AggregationError Outcome)
    (tops : List Claim) (conflicts : List Conflict)
    → add_settled r rest ≡ ok (tops, conflicts)
    → (t : Claim) × (o : Option Conflict) × (tops' : List Claim) × (conflicts' : List Conflict) × (r
        ≡ ok (t, o))
      × (rest ≡ ok (tops', conflicts'))
      × (tops ≡ t ∷ tops')
      × (conflicts ≡ cons_some o conflicts')
add_settled-inv (err e) rest tops conflicts h = cc
add_settled-inv (ok s) (err e) tops conflicts h = cc
add_settled-inv (ok (t, o)) (ok (tops', conflicts')) tops conflicts h =
    (t, o, tops', conflicts', refl, refl, cc, cc)

closed_some :
    (o : Option Conflict) (conflicts : List Conflict)
    → Undisputed (cons_some o conflicts)
    → (is_open o ≡ false) × Undisputed conflicts
closed_some none conflicts h = (refl, h)
closed_some (some found) conflicts h = h

-- Every key has its settled group in the outcome.
settle_all-covers :
    (ks : List String) (d : Dict (List Claim)) (tops : List Claim) (conflicts : List Conflict)
    (key : String)
    → settle_all ks d ≡ ok (tops, conflicts)
    → Undisputed conflicts
    → Memᴰ key ks
    → (t : Claim) × (o : Option Conflict) × (settle key (dedupe_by_content (group_of key d))
        ≡ ok (t, o))
      × (is_open o ≡ false)
      × Memᴰ t tops
unfolding settle_all
settle_all-covers [] d tops conflicts key h closed m = elim m [ ]
settle_all-covers (k ∷ ks) d tops conflicts key h closed (Memᴰ.head e) =
    let (t, o, tops', conflicts', now, _, first, found) =
      add_settled-inv (settle k (dedupe_by_content (group_of k d))) (settle_all ks d) tops conflicts
        h in
    (t, o, rw e now, (closed_some o conflicts' (rw found at closed)).0, rw first (Memᴰ.head refl))
settle_all-covers (k ∷ ks) d tops conflicts key h closed (Memᴰ.tail m) =
    let (t, o, tops', conflicts', now, later, first, found) =
      add_settled-inv (settle k (dedupe_by_content (group_of k d))) (settle_all ks d) tops conflicts
        h in
    let (t', o', settled, shut, there) =
      settle_all-covers ks d tops' conflicts' key later
        (closed_some o conflicts' (rw found at closed)).1 m in
    (t', o', settled, shut, rw first (Memᴰ.tail there))

report_of-ok :
    (r : Result AggregationError Outcome) (report : AggregationReport)
    → report_of r ≡ ok report
    → r ≡ ok (report.top_claims, report.conflicts)
unfolding report_post_init
report_of-ok (err e) report h = cc
report_of-ok (ok (tops, conflicts)) report h = ground arith

-- When a report leaves no conflict open, every claim that went into it has a top claim of its key that
-- says the same, or that has strictly more evidence; and that top claim is one of the input's.
pub aggregate-Beats :
    (P : Claim → Type 0) (claims : List Claim) (report : AggregationReport) (c : Claim)
    → aggregate claims ≡ ok report
    → Undisputed report.conflicts
    → All P claims
    → Memᴰ c claims
    → (t : Claim) × Memᴰ t report.top_claims × (t.key ≡ c.key) × P t × Beats t c
unfolding aggregate
aggregate-Beats P claims report c h closed all m =
    let d : Dict (List Claim) = group_claims claims [] in
    let ran = report_of-ok (settle_all (sort_by text_le (keys d)) d) report h in
    let here = group_claims-covers c claims [] m in
    let (t, o, settled, shut, there) =
      settle_all-covers (sort_by text_le (keys d)) d report.top_claims report.conflicts c.key ran
        closed (Memᴰ-sort_by text_le (keys d) (Memᴰ-keys c.key c d here)) in
    let (left, kept, same, le) = dedupe_by_content-Represented (group_of c.key d) c here in
    let beaten =
      settle-Beats c.key (dedupe_by_content (group_of c.key d)) t o left settled shut kept in
    let sound = group_claims-Sound P claims [] all (λ key. tt) c.key in
    let (named, p) =
      settle-All (λ x. (x.key ≡ c.key) × P x) c.key (dedupe_by_content (group_of c.key d)) t o
        settled (All-dedupe_by_content (λ x. (x.key ≡ c.key) × P x) (group_of c.key d) sound) in
    (
      t,
      there,
      named,
      p,
      elim beaten [ inl content ↦ inl (sym same ∙ content) | inr more ↦ inr (ground arith) ],
    )
