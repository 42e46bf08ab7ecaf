-- ===== src/Runtime/Synthesizer/Doubts.antt =====
-- When a synthesis has no doubts.
use xenopus.Prelude.{
  ◌≡◌, refl, Bool, true, not, ◌&&◌, List, [], ◌∷◌, String, arith, all, is_empty, if◌then◌else◌,
}
use xenopus.Runtime.Aggregator.{Claim, Conflict, AggregationReport, is_conflict}
use xenopus.Runtime.Synthesizer.{
  trusted, uncertain, conflicted_keys, unevidenced_keys, uncertainties_of, checks_of, verdict_of,
}

-- There are claims, all with evidence, and no conflict is left open.
unfoldable pub is_sound : AggregationReport → Bool
is_sound report =
    (not (is_empty report.top_claims) && all (λ c. not (is_empty c.evidence)) report.top_claims)
    && all (λ f. not (is_conflict f.resolution)) report.conflicts

unevidenced_keys_empty :
    (claims : List Claim)
    → is_empty (unevidenced_keys claims) ≡ all (λ c. not (is_empty c.evidence)) claims
unfolding unevidenced_keys
unevidenced_keys_empty [] = refl
unevidenced_keys_empty (c ∷ claims) = ground (arith, unevidenced_keys_empty claims)

conflicted_keys_empty :
    (conflicts : List Conflict)
    → is_empty (conflicted_keys conflicts) ≡ all (λ f. not (is_conflict f.resolution)) conflicts
unfolding conflicted_keys
conflicted_keys_empty [] = refl
conflicted_keys_empty (f ∷ conflicts) = ground (arith, conflicted_keys_empty conflicts)

-- Without conflicted keys, only missing evidence is a doubt.
uncertainties_of_empty :
    (claims : List Claim)
    → is_empty (uncertainties_of [] claims) ≡ all (λ c. not (is_empty c.evidence)) claims
unfolding uncertainties_of
uncertainties_of_empty [] = refl
uncertainties_of_empty (c ∷ claims) = ground (arith, uncertainties_of_empty claims)

no_keys : (ks : List String) → is_empty ks ≡ true → ks ≡ []
no_keys [] h = refl
no_keys (k ∷ ks) h = cc

pub verdict_of_lem :
    (report : AggregationReport)
    → verdict_of
        (checks_of report)
        (uncertainties_of (conflicted_keys report.conflicts) report.top_claims)
      ≡ (if is_sound report then trusted else uncertain)
unfolding verdict_of checks_of is_sound
verdict_of_lem report = ground (
  arith,
  unevidenced_keys_empty report.top_claims,
  conflicted_keys_empty report.conflicts,
  no_keys (conflicted_keys report.conflicts),
  uncertainties_of_empty report.top_claims,
)
