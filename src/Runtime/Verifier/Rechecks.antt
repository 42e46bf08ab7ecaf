-- ===== src/Runtime/Verifier/Rechecks.antt =====
-- What a verdict says of the observations.
use xenopus.Prelude.{
  ◌≡◌, ◌↔◌, ◌⊎◌, Bool, ◌&&◌, sym, ◌∙◌, ap, refl, true, false, not, List, [], ◌∷◌, ◌++◌, String,
  str_eq, str_eq_iff, arith, any, is_empty, filter, All, Bool-cases, inl, inr, if◌then◌else◌,
}
use xenopus.Prelude.Dict.{insert, lookup-insert}
use xenopus.Runtime.Verifier.{
  Verdict, pass, fail, uncertain, CheckResult, overall, Content, Observation, Index, entries_of,
  index_from, is_tool, first_verdict, recheck_verdict, adversarial_recheck, require_success_result,
  verify,
}

verdict_cases : (v : Verdict) → (v ≡ pass) ⊎ ((v ≡ fail) ⊎ (v ≡ uncertain))
verdict_cases pass = inl refl
verdict_cases fail = inr (inl refl)
verdict_cases uncertain = inr (inr refl)

-- A report passes just when each of its checks does.
overall_pass :
    (checks : List CheckResult) → (overall checks ≡ pass) ↔ All (λ c. c.verdict ≡ pass) checks
unfolding overall
overall_pass [] = (λ h. tt, λ h. refl)
overall_pass (c ∷ checks) =
    let (there, back) = overall_pass checks in
    let cases = verdict_cases c.verdict in (λ h. ground arith, λ h. ground arith)

overall_single : (c : CheckResult) → overall (c ∷ []) ≡ c.verdict
unfolding overall
overall_single c = let cases = verdict_cases c.verdict in ground arith

-- The contents of one kind, in the order in which they were observed
unfoldable pub contents_of : String → List Observation → List Content
contents_of kind [] = []
contents_of kind (o ∷ observations) =
    let rest = contents_of kind observations in
    if str_eq o.kind kind then o.content ∷ rest else rest

append_nil : (xs : List Content) → xs ++ [] ≡ xs
append_nil [] = refl
append_nil (x ∷ xs) = ap (◌∷◌ x) (append_nil xs)

append_last :
    (xs : List Content) (x : Content) (ys : List Content) → (xs ++ x ∷ []) ++ ys ≡ xs ++ x ∷ ys
append_last [] x ys = refl
append_last (z ∷ xs) x ys = ap (◌∷◌ z) (append_last xs x ys)

one_more :
    (kind : String) (o : Observation) (observations : List Observation) (index : Index)
    → entries_of kind (insert o.kind (entries_of o.kind index ++ o.content ∷ []) index)
        ++ contents_of kind observations
      ≡ entries_of kind index ++ contents_of kind (o ∷ observations)
unfolding entries_of contents_of
one_more kind o observations index =
    let law = lookup-insert o.kind kind (entries_of o.kind index ++ o.content ∷ []) index in
    elim (Bool-cases (str_eq o.kind kind)) [
      | inl e ↦
          rw (law, e, (str_eq_iff o.kind kind).0 e)
            (append_last (entries_of kind index) o.content (contents_of kind observations))
      | inr e ↦ rw (law, e) refl
    ]

entries_of-index_from :
    (kind : String) (observations : List Observation) (index : Index)
    → entries_of kind (index_from observations index)
      ≡ entries_of kind index ++ contents_of kind observations
unfolding index_from contents_of
entries_of-index_from kind [] index = sym (append_nil (entries_of kind index))
entries_of-index_from kind (o ∷ observations) index =
    let added : Index = insert o.kind (entries_of o.kind index ++ o.content ∷ []) index in
    entries_of-index_from kind observations added ∙ one_more kind o observations index

is_empty-filter : (p : Content → Bool) (xs : List Content) → is_empty (filter p xs) ≡ not (any p xs)
is_empty-filter p [] = refl
is_empty-filter p (x ∷ xs) = ground (arith, is_empty-filter p xs)

any-filter :
    (p q : Content → Bool) (xs : List Content) → any q (filter p xs) ≡ any (λ x. p x && q x) xs
any-filter p q [] = refl
any-filter p q (x ∷ xs) = ground (arith, any-filter p q xs)

any-contents_of :
    (kind : String) (p : Content → Bool) (observations : List Observation)
    → any p (contents_of kind observations)
      ≡ any (λ o. str_eq o.kind kind && p o.content) observations
unfolding contents_of
any-contents_of kind p [] = refl
any-contents_of kind p (o ∷ observations) = ground (arith, any-contents_of kind p observations)

-- The observation of an attempt of a tool
abbrev pub is_attempt : String → Observation → Bool
is_attempt tool o = str_eq o.kind "tool_result" && is_tool tool o.content.tool

abbrev pub is_failed_attempt : String → Observation → Bool
is_failed_attempt tool o =
    str_eq o.kind "tool_result" && (is_tool tool o.content.tool && not o.content.succeeded)

recheck_verdict_lem :
    (tool : String) (entries : List Content)
    → recheck_verdict tool entries ≡ (
        if any (λ e. is_tool tool e.tool && not e.succeeded) entries
        then fail
        else if any (λ e. is_tool tool e.tool) entries
        then pass
        else uncertain)
unfolding recheck_verdict
recheck_verdict_lem tool entries = ground (
  arith,
  is_empty-filter (λ e. is_tool tool e.tool) entries,
  is_empty-filter (λ e. not e.succeeded) (filter (λ e. is_tool tool e.tool) entries),
  any-filter (λ e. is_tool tool e.tool) (λ e. not e.succeeded) entries,
)

-- The verdict of `adversarial_recheck` is FAIL when any attempt of the tool was observed to fail,
-- wherever it stands among the observations, PASS when the tool was tried and no attempt failed, and
-- UNCERTAIN when it was never tried.
pub adversarial_recheck_lem :
    (name tool : String) (observations : List Observation)
    → overall (verify (adversarial_recheck name tool ∷ []) observations) ≡ (
        if any (is_failed_attempt tool) observations
        then fail
        else if any (is_attempt tool) observations
        then pass
        else uncertain)
unfolding verify adversarial_recheck entries_of
adversarial_recheck_lem name tool observations =
    let index : Index = index_from observations [] in
    let entries : List Content = contents_of "tool_result" observations in
    overall_single (adversarial_recheck name tool index)
    ∙ ap (recheck_verdict tool) (entries_of-index_from "tool_result" observations [])
    ∙ rw
        (
          recheck_verdict_lem tool entries,
          any-contents_of "tool_result" (λ e. is_tool tool e.tool && not e.succeeded) observations,
          any-contents_of "tool_result" (λ e. is_tool tool e.tool) observations,
        )
        refl

passes :
    (tool : String) (entries : List Content)
    → any (λ e. is_tool tool e.tool && not e.succeeded) entries ≡ false
    → any (λ e. is_tool tool e.tool) entries ≡ true
    → first_verdict tool entries ≡ pass
unfolding first_verdict
passes tool [] h k = cc
passes tool (e ∷ entries) h k = ground (arith, passes tool entries)

first_verdict_pass :
    (tool : String) (entries : List Content)
    → recheck_verdict tool entries ≡ pass
    → first_verdict tool entries ≡ pass
unfolding first_verdict
first_verdict_pass tool entries h =
    passes tool entries (ground (arith, recheck_verdict_lem tool entries))
      (ground (arith, recheck_verdict_lem tool entries))

-- Where `adversarial_recheck` passes, `require_success_result` for the same tool passes.
pub recheck_success :
    (name name' tool : String) (observations : List Observation)
    → overall (verify (adversarial_recheck name tool ∷ []) observations) ≡ pass
    → overall (verify (require_success_result name' tool ∷ []) observations) ≡ pass
unfolding verify adversarial_recheck require_success_result
recheck_success name name' tool observations h =
    let index : Index = index_from observations [] in
    overall_single (require_success_result name' tool index)
    ∙ first_verdict_pass tool (entries_of "tool_result" index)
        (sym (overall_single (adversarial_recheck name tool index)) ∙ h)
