-- ===== src/Runtime/Verifier/Tests.antt =====
-- Two attempts of a tool, and the theorems at them.
use xenopus.Prelude.{◌≡◌, refl, true, false, some, List, [], ◌∷◌, String}
use xenopus.Prelude.Dict.{lookup, insert}
use xenopus.Runtime.Verifier.{
  pass, Observation, overall, verify, adversarial_recheck, index_from, entries_of, recheck_verdict,
}

abbrev ran : String → Observation
ran tool = record { kind = "tool_result"; content = record { tool = some tool; succeeded = true } }

abbrev crashed : String → Observation
crashed tool = record {
  kind = "tool_result";
  content = record { tool = some tool; succeeded = false };
}

abbrev observed : List Observation
observed = crashed "write" ∷ ran "read" ∷ ran "write" ∷ []

rechecked : overall (verify (adversarial_recheck "again" "read" ∷ []) observed) ≡ pass
unfolding overall verify adversarial_recheck index_from entries_of recheck_verdict lookup insert
rechecked = refl
