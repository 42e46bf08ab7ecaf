-- ===== src/Runtime/Orchestrator/Runs.antt =====
-- What an execution reports.
use xenopus.Prelude.{
  ◌≡◌, Bool, true, List, [], ◌∷◌, ◌++◌, map, String, filter, All, Bool-cases, inl, inr,
}
use xenopus.Prelude.Dict.{Dict}
use xenopus.Runtime.Plan
use xenopus.Runtime.Plan.{Plan, contains, dependencies_of}
use xenopus.Runtime.Orchestrator.{Outcome, LayerReport}

-- The tasks whose results a report has
unfoldable pub reported : List LayerReport → List String
reported [] = []
reported (report ∷ reports) = map (λ r. r.task_id) report.results ++ reported reports

abbrev ids : List Outcome → List String
ids results = map (λ r. r.task_id) results

All-filter_self : (p : String → Bool) (xs : List String) → All (λ x. p x ≡ true) (filter p xs)
All-filter_self p [] = tt
All-filter_self p (x ∷ xs) = elim (Bool-cases (p x)) [
  | inl e ↦ rw e (e, All-filter_self p xs)
  | inr e ↦ rw e (All-filter_self p xs)
]
