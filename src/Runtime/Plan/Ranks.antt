-- ===== src/Runtime/Plan/Ranks.antt =====
-- Plans that `validate` accepts have no cycle: their tasks can be ranked.
use mathlib.Core.List.{Memᴰ}
use xenopus.Prelude.{
  ◌≡◌, refl, Bool, true, not, Option, none, List, [], ◌∷◌, String, all, filter, All, ℕ, zero, suc,
  length, arith, is_empty, Bool-cases, inl, inr, ◌==◌,
}
use xenopus.Prelude.Dict.{Dict, keys, values}
use xenopus.Runtime.Plan.Walks.{Walk, cycle, clear, missing, out_of_fuel}
use xenopus.Runtime.Plan.{
  TaskNode, contains, free_nodes, is_next, see_each, see_all, reachable_from_roots, orphan_error,
  cycle_error, validate, PlanError, find_cycle,
}

all_empty : (p : String → Bool) (xs : List String) → is_empty xs ≡ true → all p xs ≡ true
all_empty p [] h = refl
all_empty p (x ∷ xs) h = cc

no_orphan :
    (seen nids : List String)
    → orphan_error (filter (λ nid. not (contains nid seen)) nids) ≡ none
    → All (λ nid. contains nid seen ≡ true) nids
no_orphan seen [] h = tt
no_orphan seen (nid ∷ nids) h = elim (Bool-cases (contains nid seen)) [
  | inl e ↦ (e, no_orphan seen nids (rw e at h))
  | inr e ↦ cc (rw e at h)
]

cycle_error-none : (w : Walk) (next : Option PlanError) → cycle_error w next ≡ none → next ≡ none
cycle_error-none (cycle nids) next h = cc
cycle_error-none (clear s) next h = h
cycle_error-none missing next h = cc
cycle_error-none out_of_fuel next h = cc

module _ {J : Type 0} where
  -- Each task of the list, from the last on, depends only on tasks after it in the list.
  abbrev pub Ranked : List (TaskNode J) → List String → Type 0
  Ranked nodes [] = Unit
  Ranked nodes (nid ∷ seen) =
      ((node : TaskNode J) × Memᴰ node nodes
        × (node.id ≡ nid)
        × (all (λ d. contains d seen) node.dependencies ≡ true))
      × Ranked nodes seen

  abbrev Included : List (TaskNode J) → List (TaskNode J) → Type 0
  Included some_nodes nodes = (node : TaskNode J) → Memᴰ node some_nodes → Memᴰ node nodes

  free_nodes-Ranked :
      (nodes rest : List (TaskNode J)) (seen : List String)
      → Included rest nodes
      → Ranked nodes seen
      → Ranked nodes (free_nodes rest seen)
  free_nodes-Ranked nodes [] seen inc h = h
  free_nodes-Ranked nodes (node ∷ rest) seen inc h =
      elim (Bool-cases (is_empty node.dependencies)) [
        | inl e ↦ rw e (
            free_nodes-Ranked nodes rest (node.id ∷ seen) (λ n m. inc n (Memᴰ.tail m))
              ((node, inc node (Memᴰ.head refl), refl, all_empty _ node.dependencies e), h))
        | inr e ↦ rw e (free_nodes-Ranked nodes rest seen (λ n m. inc n (Memᴰ.tail m)) h)
      ]

  see_each-Ranked :
      (nodes rest : List (TaskNode J)) (seen : List String)
      → Included rest nodes
      → Ranked nodes seen
      → Ranked nodes (see_each rest seen)
  unfolding see_each
  see_each-Ranked nodes [] seen inc h = h
  see_each-Ranked nodes (node ∷ rest) seen inc h = elim (Bool-cases (is_next node seen)) [
    | inl e ↦ rw e (
        see_each-Ranked nodes rest (node.id ∷ seen) (λ n m. inc n (Memᴰ.tail m))
          ((node, inc node (Memᴰ.head refl), refl, ground arith), h))
    | inr e ↦ rw e (see_each-Ranked nodes rest seen (λ n m. inc n (Memᴰ.tail m)) h)
  ]

  see_all-Ranked :
      (fuel : ℕ) (nodes : List (TaskNode J)) (seen : List String)
      → Ranked nodes seen
      → Ranked nodes (see_all fuel nodes seen)
  unfolding see_all
  see_all-Ranked zero nodes seen h = h
  see_all-Ranked (suc fuel) nodes seen h =
      let once = see_each-Ranked nodes nodes seen (λ n m. m) h in
      elim (Bool-cases (length (see_each nodes seen) == length seen)) [
        | inl e ↦ rw e once
        | inr e ↦ rw e (see_all-Ranked fuel nodes (see_each nodes seen) once)
      ]

  -- A plan that `validate` accepts is acyclic: its tasks stand in one list such that each depends only
  -- on tasks that come after it there.
  pub validate-Ranked :
      (nodes : Dict (TaskNode J))
      → validate nodes ≡ none
      → (seen : List String) × Ranked (values nodes) seen
        × All (λ nid. contains nid seen ≡ true) (keys nodes)
  unfolding validate reachable_from_roots
  validate-Ranked nodes h =
      let seen = reachable_from_roots nodes in
      let past =
        cycle_error-none (find_cycle nodes)
          (orphan_error (filter (λ nid. not (contains nid seen)) (keys nodes))) (ground arith) in
      (
        seen,
        see_all-Ranked (suc (length nodes)) (values nodes) (free_nodes (values nodes) [])
            (free_nodes-Ranked (values nodes) (values nodes) [] (λ n m. m) tt),
        no_orphan seen (keys nodes) past,
      )
