-- ===== src/Runtime/Plan/Queues.antt =====
-- The degrees and the queue of `topological_order` in src/xenopus/runtime/plan.py.
use xenopus.Prelude.{
  ℕ, zero, suc, ◌-◌, Option, none, some, List, [], ◌∷◌, ◌++◌, String, ◌==◌, if◌then◌else◌,
}
use xenopus.Prelude.Dict.{Dict, lookup}
use xenopus.Prelude.Tables.{alter}
use xenopus.Prelude.Sort.{sort_by}
use xenopus.Prelude.Text.{text_le}

-- The loop of Kahn's algorithm over the tasks that wait for `current`: the new degrees, and the tasks
-- that are free now. A degree of 0 that is decremented is never 0 again, and here never 1.
abbrev pub freed_by : Option ℕ → String → List String
freed_by none child = []
freed_by (some d) child = if d == 1 then child ∷ [] else []

unfoldable pub free_each : List String → Dict ℕ → Dict ℕ × List String
unfolding alter
free_each [] indegree = (indegree, [])
free_each (child ∷ children) indegree =
    let (indegree', newly_free) = free_each children (alter child (λ d. d - 1) indegree) in
    (indegree', freed_by (lookup child indegree) child ++ newly_free)

abbrev pub or_none : Option (List String) → List String
or_none none = []
or_none (some children) = children

-- The loop over the queue: a round for each unit of fuel
unfoldable pub order_from : ℕ → Dict (List String) → Dict ℕ → List String → List String
unfolding free_each
order_from zero dependents indegree queue = []
order_from (suc fuel) dependents indegree [] = []
order_from (suc fuel) dependents indegree (current ∷ queue) =
    let (indegree', newly_free) = free_each (or_none (lookup current dependents)) indegree in
    current ∷ order_from fuel dependents indegree' (sort_by text_le (queue ++ newly_free))

unfoldable pub add_dependent : String → List String → Dict (List String) → Dict (List String)
unfolding alter
add_dependent nid [] dependents = dependents
add_dependent nid (dep ∷ deps) dependents =
    add_dependent nid deps (alter dep (λ nids. nids ++ nid ∷ []) dependents)
