-- ===== src/Runtime/Orchestrator/Dependencies.antt =====
-- What has completed when a task runs.
use mathlib.Core.List.{append-nil}
use xenopus.Prelude.{
  ℕ, suc, ◌≡◌, refl, ap, subst, str_eq_iff, Result-cases, Bool, true, false, not, ◌⊎◌, inl, inr,
  List, [], ◌∷◌, ◌++◌, map, String, ok, all, filter, All, All-append, arith, Bool-cases,
}
use xenopus.Prelude.Dict.{Dict, lookup}
use xenopus.Runtime.Plan.{TaskNode, Plan, contains, dependencies_of}
use xenopus.Runtime.Orchestrator.{
  Outcome, OrchestrationReport, LayerReport, is_completed, is_ready, blocked_result, layer_results,
  after_layer, run_layers, dependency_layers, execute,
}

-- The tasks that these results report as completed
abbrev pub completed_of : List Outcome → List String
completed_of results = map (λ r. r.task_id) (filter (λ r. is_completed r) results)

all-All : (p : String → Bool) (xs : List String) → all p xs ≡ true → All (λ x. p x ≡ true) xs
all-All p [] h = tt
all-All p (x ∷ xs) h = (ground arith, all-All p xs (ground arith))

all-false :
    (p : String → Bool) (xs : List String)
    → all p xs ≡ false
    → (x : String) × (contains x xs ≡ true) × (p x ≡ false)
unfolding contains
all-false p [] h = cc
all-false p (x ∷ xs) h = elim (Bool-cases (p x)) [
  | inl e ↦ let (y, there, fails) = all-false p xs (ground arith) in (y, ground arith, fails)
  | inr e ↦ (x, ground (arith, str_eq_iff x x), e)
]

module _ {J : Type 0} (nodes : Dict (TaskNode J)) (run : String → Outcome) where
  -- The result is that of a task that ran when all its dependencies were among these, or of a task
  -- that was blocked and of which some dependency was not.
  abbrev pub Warranted : List String → Outcome → Type 0
  Warranted done r =
      (k : String) × (((r ≡ run k)
          × All (λ d. contains d done ≡ true) (dependencies_of (lookup k nodes)))
        ⊎ ((r ≡ blocked_result k)
            × ((d : String) × (contains d (dependencies_of (lookup k nodes)) ≡ true)
                × (contains d done ≡ false))))

  -- Each result of each layer is warranted by what the earlier layers report as completed.
  abbrev pub Supported : List String → List LayerReport → Type 0
  Supported done [] = Unit
  Supported done (report ∷ reports) =
      All (Warranted done) report.results × Supported (done ++ completed_of report.results) reports

  ran-Warranted :
      (done layer : List String)
      → All (Warranted done) (map run (filter (λ k. is_ready nodes done k) layer))
  unfolding is_ready
  ran-Warranted done [] = tt
  ran-Warranted done (k ∷ layer) = elim (Bool-cases (is_ready nodes done k)) [
    | inl e ↦ rw e (
      (k, inl (refl, all-All (λ d. contains d done) (dependencies_of (lookup k nodes)) e)),
      ran-Warranted done layer,
    )
    | inr e ↦ rw e (ran-Warranted done layer)
  ]

  blocked-Warranted :
      (done layer : List String)
      → All (Warranted done) (map blocked_result (filter (λ k. not (is_ready nodes done k)) layer))
  unfolding is_ready
  blocked-Warranted done [] = tt
  blocked-Warranted done (k ∷ layer) = elim (Bool-cases (is_ready nodes done k)) [
    | inl e ↦ rw e (blocked-Warranted done layer)
    | inr e ↦ rw e (
      (k, inr (refl, all-false (λ d. contains d done) (dependencies_of (lookup k nodes)) e)),
      blocked-Warranted done layer,
    )
  ]

  module _ (named : (k : String) → (run k).task_id ≡ k) where
    ran-completed :
        (ks : List String) → completed_of (map run ks) ≡ filter (λ k. is_completed (run k)) ks
    ran-completed [] = refl
    ran-completed (k ∷ ks) = elim (Bool-cases (is_completed (run k))) [
      | inl e ↦ rw (e, named k, ran-completed ks) refl
      | inr e ↦ rw e (ran-completed ks)
    ]

    blocked-completed : (ks : List String) → completed_of (map blocked_result ks) ≡ []
    unfolding is_completed
    blocked-completed [] = refl
    blocked-completed (k ∷ ks) = blocked-completed ks

    completed_of-append :
        (xs ys : List Outcome) → completed_of (xs ++ ys) ≡ completed_of xs ++ completed_of ys
    completed_of-append [] ys = refl
    completed_of-append (x ∷ xs) ys = elim (Bool-cases (is_completed x)) [
      | inl e ↦ rw e (ap (λ zs. x.task_id ∷ zs) (completed_of-append xs ys))
      | inr e ↦ rw e (completed_of-append xs ys)
    ]

    -- The loop's set grows by what the layer reports as completed.
    after_layer-completed :
        (done layer : List String)
        → after_layer nodes run done layer
          ≡ done ++ completed_of (layer_results nodes run done layer)
    unfolding after_layer layer_results
    after_layer-completed done layer =
        let ready = filter (λ k. is_ready nodes done k) layer in
        let blocked = filter (λ k. not (is_ready nodes done k)) layer in
        rw
          (
            completed_of-append (map run ready) (map blocked_result blocked),
            ran-completed ready,
            blocked-completed blocked,
            append-nil,
          )
          refl

    run_layers-Supported :
        (n : ℕ) (layers : List (List String)) (done : List String)
        → Supported done (run_layers nodes run n layers done).0
    unfolding run_layers layer_results
    run_layers-Supported n [] done = tt
    run_layers-Supported n (layer ∷ layers) done = (
      All-append (Warranted done) _ _ (ran-Warranted done layer) (blocked-Warranted done layer),
      subst
          (λ more.
            Supported more
              (run_layers nodes run (suc n) layers (after_layer nodes run done layer)).0)
          (after_layer-completed done layer)
          (run_layers-Supported (suc n) layers (after_layer nodes run done layer)),
    )

-- In every execution that returns a report, forced to be sequential or not: a task ran only if all its
-- dependencies had been reported as completed in earlier layers, and a task was blocked only if some
-- dependency had not. A result is about the task that ran.
pub execute-Supported :
    {J : Type 0} (plan : Plan J) (run : String → Outcome) (correlation_id : String)
    (force_sequential : Bool) (report : OrchestrationReport)
    → ((k : String) → (run k).task_id ≡ k)
    → execute run plan correlation_id force_sequential ≡ ok report
    → Supported plan.nodes run [] report.layers
unfolding execute
execute-Supported plan run correlation_id force_sequential report named h =
    elim (Result-cases (dependency_layers plan.nodes)) [
      | inl (layers, found) ↦
          let same : report.layers ≡ (run_layers plan.nodes run 0 layers []).0 = ground arith in
          rw same (run_layers-Supported plan.nodes run named 0 layers [])
      | inr (e, bad) ↦ absurd (ground arith)
    ]
