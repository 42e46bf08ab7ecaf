-- ===== src/Runtime/Plan.antt =====
-- src/xenopus/runtime/plan.py: plans as graphs of tasks. A set of texts is the list of its members, and
-- `J` is the type of output schemas.
pub mod Walks
pub mod Queues
pub mod Counts
pub mod Dependents
pub mod Closures
pub mod Ranks
pub mod Creation
pub mod Orders
pub mod Searches
mod Tests
use xenopus.Prelude.{
  ℕ, zero, suc, ◌+◌, ◌-◌, Bool, true, false, not, ◌&&◌, ◌||◌, Option, none, some, List, [], ◌∷◌,
  ◌++◌, String, str_eq, map, Result, ok, err, length, is_empty, any, all, filter, ◌==◌,
  if◌then◌else◌,
}
use xenopus.Prelude.Dict.{Dict, lookup, has, insert, keys, values}
use xenopus.Prelude.Tables.{alter}
use xenopus.Prelude.Sort.{sort_by}
use xenopus.Prelude.Text.{text_le}
use xenopus.Prelude.Strip.{strip, is_blank}
use xenopus.Runtime.Plan.Walks.{
  Color, white, Search, Walk, cycle, clear, missing, out_of_fuel, visit_each, search_each, enter,
  leave, and_leave,
}
use xenopus.Runtime.Plan.Queues.{order_from, add_dependent}
use xenopus.Runtime.Budgets.{Budget, RetryPolicy}
use xenopus.Runtime.Goals.{Goal, GoalManager, GoalError, require_active}

pub data TaskStatus : Type 0 where
  queued running waiting paused resumable completed failed cancelled : TaskStatus

pub record TaskNode (J : Type 0) : Type 0 where
  pub id : String
  pub summary : String
  pub dependencies : List String
  pub agent_type : String
  pub status : TaskStatus
  pub required_tools : List String
  pub forbidden_tools : List String
  pub budget : Option Budget
  pub retry_policy : Option RetryPolicy
  pub timeout : Option ℕ
  pub output_schema : Option J

-- `x in xs`
unfoldable pub contains : String → List String → Bool
contains x xs = any (λ y. str_eq y x) xs

pub data PlanError : Type 0 where
  no_nodes : PlanError
  unknown_dependency cycle_detected orphans_detected duplicate_id : PlanError
  goal_error : GoalError → PlanError
  key_error : PlanError

pub data NodeError : Type 0 where
  empty_id self_dependency : NodeError

abbrev pub orphan_error : List String → Option PlanError
orphan_error [] = none
orphan_error (x ∷ orphans) = some orphans_detected

abbrev pub cycle_error : Walk → Option PlanError → Option PlanError
cycle_error (cycle nids) next = some cycle_detected
cycle_error (clear s) next = next
cycle_error missing next = some key_error
cycle_error out_of_fuel next = some key_error

module _ {J : Type 0} where
  -- `TaskNode.__post_init__`
  unfoldable pub node_post_init : TaskNode J → Result NodeError (TaskNode J)
  node_post_init node =
      if is_blank (strip node.id)
      then err empty_id
      else if contains node.id node.dependencies
      then err self_dependency
      else ok node

  -- `Plan.roots`
  unfoldable pub roots : Dict (TaskNode J) → List String
  roots nodes =
      sort_by text_le (map (λ n. n.id) (filter (λ n. is_empty n.dependencies) (values nodes)))

  abbrev pub dependencies_of : Option (TaskNode J) → List String
  dependencies_of none = []
  dependencies_of (some node) = node.dependencies

  -- `visit` of `_find_cycle`
  unfoldable pub visit : Dict (TaskNode J) → ℕ → String → Search → Walk
  unfolding visit_each
  visit nodes zero nid s = out_of_fuel
  visit nodes (suc fuel) nid s = and_leave nid (
      visit_each (λ dep s'. visit nodes fuel dep s')
        (sort_by text_le (dependencies_of (lookup nid nodes))) (enter nid s))

  abbrev pub all_white : Dict (TaskNode J) → Dict Color
  all_white [] = []
  all_white ((nid, node) ∷ nodes) = (nid, white) ∷ all_white nodes

  unfoldable pub find_cycle : Dict (TaskNode J) → Walk
  unfolding visit search_each
  find_cycle nodes =
      search_each (λ nid s. visit nodes (length nodes) nid s) (sort_by text_le (keys nodes))
        record { color = all_white nodes; path = [] }

  -- The members of `seen` before the loop of `_reachable_from_roots`, newest first
  abbrev pub free_nodes : List (TaskNode J) → List String → List String
  free_nodes [] seen = seen
  free_nodes (node ∷ nodes) seen =
      let seen' = if is_empty node.dependencies then node.id ∷ seen else seen in
      free_nodes nodes seen'

  abbrev pub is_next : TaskNode J → List String → Bool
  is_next node seen =
      not (contains node.id seen)
      && not (is_empty node.dependencies)
      && all (λ d. contains d seen) node.dependencies

  -- A round of the loop: the set after it
  unfoldable pub see_each : List (TaskNode J) → List String → List String
  see_each [] seen = seen
  see_each (node ∷ nodes) seen = see_each nodes (if is_next node seen then node.id ∷ seen else seen)

  -- Rounds until one that changes nothing
  unfoldable pub see_all : ℕ → List (TaskNode J) → List String → List String
  unfolding see_each
  see_all zero nodes seen = seen
  see_all (suc fuel) nodes seen =
      let seen' = see_each nodes seen in
      let further = see_all fuel nodes seen' in
      if length seen' == length seen then seen' else further

  unfoldable pub reachable_from_roots : Dict (TaskNode J) → List String
  unfolding see_all
  reachable_from_roots nodes =
      see_all (suc (length nodes)) (values nodes) (free_nodes (values nodes) [])

  abbrev pub unknown_in : Dict (TaskNode J) → TaskNode J → Bool
  unknown_in nodes node = any (λ dep. not (has dep nodes)) node.dependencies

  -- The error that it raises; the fuel of the search is enough.
  unfoldable pub validate : Dict (TaskNode J) → Option PlanError
  unfolding find_cycle reachable_from_roots
  validate nodes =
      let seen = reachable_from_roots nodes in
      if is_empty nodes
      then some no_nodes
      else if any (unknown_in nodes) (values nodes)
      then some unknown_dependency
      else cycle_error (find_cycle nodes)
          (orphan_error (filter (λ nid. not (contains nid seen)) (keys nodes)))

  abbrev pub indegrees : Dict (TaskNode J) → Dict ℕ
  indegrees [] = []
  indegrees ((nid, node) ∷ nodes) = (nid, length node.dependencies) ∷ indegrees nodes

  abbrev pub no_dependents : Dict (TaskNode J) → Dict (List String)
  no_dependents [] = []
  no_dependents ((nid, node) ∷ nodes) = (nid, []) ∷ no_dependents nodes

  unfoldable pub add_dependents : List (TaskNode J) → Dict (List String) → Dict (List String)
  unfolding add_dependent
  add_dependents [] dependents = dependents
  add_dependents (node ∷ nodes) dependents =
      add_dependents nodes (add_dependent node.id node.dependencies dependents)

  unfoldable pub topological_order : Dict (TaskNode J) → Result PlanError (List String)
  unfolding validate order_from add_dependents
  topological_order nodes =
      let indegree = indegrees nodes in
      elim (validate nodes) [
        | some e ↦ err e
        | none ↦ ok (
            order_from (length nodes) (add_dependents (values nodes) (no_dependents nodes)) indegree
              (sort_by text_le (keys (filter (λ e. e.1 == 0) indegree))))
      ]

pub record Plan (J : Type 0) : Type 0 where
  pub goal_id : String
  pub nodes : Dict (TaskNode J)
  pub plan_id : String

module _ {J : Type 0} where
  -- The loop that builds `node_map`
  unfoldable pub node_map :
      List (TaskNode J) → Dict (TaskNode J) → Result PlanError (Dict (TaskNode J))
  node_map [] nodes = ok nodes
  node_map (node ∷ rest) nodes =
      let others = node_map rest (insert node.id node nodes) in
      if has node.id nodes then err duplicate_id else others

  -- `Plan.__post_init__`
  abbrev pub if_valid : Plan J → Option PlanError → Result PlanError (Plan J)
  if_valid plan none = ok plan
  if_valid plan (some e) = err e

  abbrev pub plan_with :
      String → String → Result PlanError (Dict (TaskNode J)) → Result PlanError (Plan J)
  unfolding validate
  plan_with goal_id plan_id (err e) = err e
  plan_with goal_id plan_id (ok nodes) =
      if_valid record { goal_id = goal_id; nodes = nodes; plan_id = plan_id } (validate nodes)

  -- What `create` does behind the goal's check
  abbrev pub planned :
      {B : Type 0}
      → Result GoalError (Goal B)
      → String
      → List (TaskNode J)
      → String
      → Result PlanError (Plan J)
  unfolding node_map plan_with
  planned (err e) goal_id nodes plan_id = err (goal_error e)
  planned (ok goal) goal_id nodes plan_id =
      if is_empty nodes then err no_nodes else plan_with goal_id plan_id (node_map nodes [])

  -- `PlanEngine.create`; `plan_id` comes from `uuid4`.
  unfoldable pub create :
      {B : Type 0} → GoalManager B → String → List (TaskNode J) → String → Result PlanError (Plan J)
  unfolding planned
  create goals goal_id nodes plan_id = planned (require_active goal_id goals) goal_id nodes plan_id
