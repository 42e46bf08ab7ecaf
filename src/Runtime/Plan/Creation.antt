-- ===== src/Runtime/Plan/Creation.antt =====
-- Plans that the engine creates.
use xenopus.Prelude.{
  ◌≡◌, refl, ap, subst, false, Option, none, some, List, [], ◌∷◌, String, Result, ok, err, arith,
  str_eq, str_eq_iff, Bool-cases, inl, inr, is_empty,
}
use xenopus.Prelude.Dict.{Dict, has, insert, has-insert}
use xenopus.Prelude.Tables.{IsKeyed}
use xenopus.Runtime.Goals.{GoalManager, GoalError, Goal, require_active}
use xenopus.Runtime.Plan.Counts.{occ}
use xenopus.Runtime.Plan.Dependents.{Named, is_there}
use xenopus.Runtime.Plan.Orders.{Follows, topological_order-Follows}
use xenopus.Runtime.Plan.{
  TaskNode, Plan, PlanError, validate, node_map, if_valid, plan_with, planned, create,
  topological_order,
}

module _ {J : Type 0} where
  insert-Named :
      (node : TaskNode J) (nodes : Dict (TaskNode J))
      → has node.id nodes ≡ false
      → Named nodes
      → IsKeyed nodes
      → Named (insert node.id node nodes) × IsKeyed (insert node.id node nodes)
  unfolding has insert
  insert-Named node [] new named keyed = ((refl, tt), (refl, tt))
  insert-Named node ((nid, other) ∷ nodes) new (same, named) (absent, keyed) =
      elim (Bool-cases (str_eq nid node.id)) [
        | inl e ↦ cc (rw e at new)
        | inr e ↦
            let (named', keyed') = insert-Named node nodes (rw e at new) named keyed in
            let still = has-insert node.id nid node nodes in
            rw e (
              (same, named'),
              (ground (arith, str_eq_iff node.id nid, str_eq_iff nid node.id), keyed'),
            )
      ]

  -- A dict of nodes under their ids, each once
  abbrev pub IsNodeMap : Dict (TaskNode J) → Type 0
  IsNodeMap nodes = Named nodes × IsKeyed nodes

  node_map-IsNodeMap :
      (rest : List (TaskNode J)) (nodes built : Dict (TaskNode J))
      → IsNodeMap nodes
      → node_map rest nodes ≡ ok built
      → IsNodeMap built
  unfolding node_map
  node_map-IsNodeMap [] nodes built both h =
      let same : nodes ≡ built = cc in subst IsNodeMap same both
  node_map-IsNodeMap (node ∷ rest) nodes built (named, keyed) h =
      elim (Bool-cases (has node.id nodes)) [
        | inl e ↦ cc (rw e at h)
        | inr e ↦
            node_map-IsNodeMap rest (insert node.id node nodes) built
              (insert-Named node nodes e named keyed) (rw e at h)
      ]

  if_valid-ok :
      (plan made : Plan J) (e : Option PlanError)
      → if_valid plan e ≡ ok made
      → (plan ≡ made) × (e ≡ none)
  if_valid-ok plan made none h = (cc, refl)
  if_valid-ok plan made (some e) h = cc

  plan_with-ok :
      (goal_id plan_id : String) (nodes : Result PlanError (Dict (TaskNode J))) (plan : Plan J)
      → plan_with goal_id plan_id nodes ≡ ok plan
      → (nodes ≡ ok plan.nodes) × (validate plan.nodes ≡ none)
  unfolding plan_with
  plan_with-ok goal_id plan_id (err e) plan h = cc
  plan_with-ok goal_id plan_id (ok nodes) plan h =
      let (same, valid) =
        if_valid-ok record { goal_id = goal_id; nodes = nodes; plan_id = plan_id } plan
          (validate nodes) h in
      let eq : nodes ≡ plan.nodes = ap (λ p. p.nodes) same in
      (ap ok eq, subst (λ n. validate n ≡ none) eq valid)

  planned-ok :
      {B : Type 0} (goal : Result GoalError (Goal B)) (goal_id plan_id : String)
      (nodes : List (TaskNode J)) (plan : Plan J)
      → planned goal goal_id nodes plan_id ≡ ok plan
      → (node_map nodes [] ≡ ok plan.nodes) × (validate plan.nodes ≡ none)
  unfolding planned
  planned-ok (err e) goal_id plan_id nodes plan h = cc
  planned-ok (ok goal) goal_id plan_id nodes plan h = elim (Bool-cases (is_empty nodes)) [
    | inl e ↦ cc (rw e at h)
    | inr e ↦ plan_with-ok goal_id plan_id (node_map nodes []) plan (rw e at h)
  ]

  -- For every plan that the engine creates `topological_order` returns: the order has each task once
  -- and nothing else, and each task comes after all its dependencies.
  pub create-Follows :
      {B : Type 0} (goals : GoalManager B) (goal_id plan_id : String) (nodes : List (TaskNode J))
      (plan : Plan J)
      → create goals goal_id nodes plan_id ≡ ok plan
      → (order : List String) × (topological_order plan.nodes ≡ ok order)
        × Follows plan.nodes [] order
        × ((k : String) → occ k order ≡ is_there (has k plan.nodes))
  unfolding create
  create-Follows goals goal_id plan_id nodes plan made =
      let (mapped, valid) =
        planned-ok (require_active goal_id goals) goal_id plan_id nodes plan made in
      let (named, keyed) = node_map-IsNodeMap nodes [] plan.nodes (tt, tt) mapped in
      topological_order-Follows plan.nodes named keyed valid
