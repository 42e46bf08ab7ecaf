-- ===== src/Runtime/Synthesizer/Trust.antt =====
-- What the verdict of a synthesis says of the claims that were aggregated.
use mathlib.Core.List.{Memᴰ}
use xenopus.Prelude.{
  ◌≡◌, refl, Bool, true, false, not, List, [], ◌∷◌, ok, arith, all, is_empty, All, All-map,
  Bool-cases, inl, inr, if◌then◌else◌,
}
use xenopus.Runtime.Aggregator.{Claim, Conflict, AggregationReport, aggregate, is_conflict}
use xenopus.Runtime.Aggregator.Dominance.{Beats}
use xenopus.Runtime.Aggregator.Reports.{Undisputed, aggregate-Beats}
use xenopus.Runtime.Verifier.{CheckResult}
use xenopus.Runtime.Synthesizer.{
  SynthesisVerdict, trusted, SynthesisReport, Uncertainty, conflicted_keys, uncertainties_of,
  checks_of, verdict_of, post_init, synthesize, is_trusted,
}
use xenopus.Runtime.Synthesizer.Doubts.{is_sound, verdict_of_lem}

trusted_empty :
    (results : List CheckResult) (us : List Uncertainty)
    → is_trusted (verdict_of results us) ≡ true
    → is_empty us ≡ true
unfolding verdict_of
trusted_empty results us h = ground arith

post_init-ok :
    (s : SynthesisReport)
    → (is_trusted s.verdict ≡ true → is_empty s.uncertainties ≡ true)
    → post_init s ≡ ok s
unfolding post_init
post_init-ok s h = elim (Bool-cases (is_trusted s.verdict)) [
  | inl e ↦ rw (e, h e) refl
  | inr e ↦ rw e refl
]

-- `synthesize` never raises. Its verdict is TRUSTED when there is a top claim, every top claim has
-- evidence and no conflict is left open, and UNCERTAIN otherwise; it is never REJECTED.
pub synthesize_lem :
    (report : AggregationReport)
    → (s : SynthesisReport) × (synthesize report ≡ ok s)
      × (s.verdict ≡ (if is_sound report then trusted else SynthesisVerdict.uncertain))
unfolding synthesize
synthesize_lem report =
    let us = uncertainties_of (conflicted_keys report.conflicts) report.top_claims in
    (_, post_init-ok _ (λ h. trusted_empty (checks_of report) us h), verdict_of_lem report)

all-Memᴰ :
    (p : Claim → Bool) (c : Claim) (cs : List Claim) → all p cs ≡ true → Memᴰ c cs → p c ≡ true
all-Memᴰ p c [] h m = elim m [ ]
all-Memᴰ p c (x ∷ cs) h (Memᴰ.head e) = rw e (ground arith)
all-Memᴰ p c (x ∷ cs) h (Memᴰ.tail m) = all-Memᴰ p c cs (ground arith) m

all-Undisputed :
    (conflicts : List Conflict)
    → all (λ f. not (is_conflict f.resolution)) conflicts ≡ true
    → Undisputed conflicts
all-Undisputed [] h = tt
all-Undisputed (f ∷ conflicts) h = (ground arith, all-Undisputed conflicts (ground arith))

All-Memᴰ_self : (cs : List Claim) → All (λ c. Memᴰ c cs) cs
All-Memᴰ_self [] = tt
All-Memᴰ_self (c ∷ cs) = (
  Memᴰ.head refl,
  All-map (λ x. Memᴰ x cs) (λ x. Memᴰ x (c ∷ cs)) (λ x m. Memᴰ.tail m) cs (All-Memᴰ_self cs),
)

-- When the synthesis of an aggregation is TRUSTED, every claim that went into it is answered by a claim
-- with evidence, one of those that went in and with the same key, that says the same or has strictly
-- more evidence.
pub trusted-Beats :
    (claims : List Claim) (report : AggregationReport) (s : SynthesisReport) (c : Claim)
    → aggregate claims ≡ ok report
    → synthesize report ≡ ok s
    → s.verdict ≡ trusted
    → Memᴰ c claims
    → (t : Claim) × Memᴰ t claims × (t.key ≡ c.key) × (is_empty t.evidence ≡ false) × Beats t c
unfolding is_sound
trusted-Beats claims report s c ran made trust m =
    let (s', made', verdict) = synthesize_lem report in
    let sound : is_sound report ≡ true = ground arith in
    let (t, top, named, from, beats) =
      aggregate-Beats (λ x. Memᴰ x claims) claims report c ran
        (all-Undisputed report.conflicts (ground (arith, sound))) (All-Memᴰ_self claims) m in
    let backed =
      all-Memᴰ (λ x. not (is_empty x.evidence)) t report.top_claims (ground (arith, sound)) top in
    (t, from, named, ground (arith, backed), beats)
