-- ===== src/Runtime/Plan/Orders.antt =====
-- The topological order of a plan that `validate` accepts.
use mathlib.Core.List.{Memᴰ}
use mathlib.Core.Option.{none-ne-some}
use xenopus.Prelude.{
  ℕ, zero, suc, ◌+◌, ◌≤◌, ◌≡◌, refl, sym, ap, ◌∙◌, subst, Bool, true, false, none, some, List, [],
  ◌∷◌, ◌++◌, String, str_eq, str_eq_iff, arith, length, all, All, ok, Bool-cases, inl, inr,
  length-append,
}
use xenopus.Prelude.Dict.{Dict, lookup, has, keys, values, has-false-lookup}
use xenopus.Prelude.Tables.{IsKeyed, has_of_lookup}
use xenopus.Prelude.Sort.{sort_by, length-sort_by}
use xenopus.Prelude.Text.{text_le}
use xenopus.Runtime.Plan.Queues.{free_each, order_from, or_none}
use xenopus.Runtime.Plan.Counts.{
  occ, occ-append, occ-sort_by, contains_of_occ, contains-none, left, left-nil, left-cons,
  left-zero, zero-left, degree, pos, positives, free_each-degree, free_each-occ,
  free_each-positives,
}
use xenopus.Runtime.Plan.Dependents.{
  Named, occ-dependents, degree-indegrees, first_queue, is_there, occ-first_queue,
  length-first_queue,
}
use xenopus.Runtime.Plan.Ranks.{Ranked, validate-Ranked}
use xenopus.Runtime.Plan.{
  TaskNode, contains, validate, add_dependents, no_dependents, indegrees, topological_order,
}

pos-none : (n : ℕ) → pos n ≡ 0 → n ≡ 0
pos-none zero h = refl
pos-none (suc n) h = absurd (omega arith)

lookup_of_has {ℓ} :
    {V : Type ℓ} (k : String) (m : Dict V) → has k m ≡ true → (v : V) × (lookup k m ≡ some v)
unfolding has lookup
lookup_of_has k [] h = cc
lookup_of_has k ((j, v) ∷ m) h = elim (Bool-cases (str_eq j k)) [
  | inl e ↦ (v, rw e refl)
  | inr e ↦ let (w, found) = lookup_of_has k m (rw e at h) in (w, rw e found)
]

has_of_there : (b : Bool) → 1 ≤ is_there b → b ≡ true
has_of_there true h = refl
has_of_there false h = absurd (omega arith)

is_there_le : (b : Bool) → is_there b ≤ 1
is_there_le true = omega arith
is_there_le false = omega arith

lookup-Memᴰ :
    {J : Type 0} (node : TaskNode J) (rest : Dict (TaskNode J))
    → Named rest
    → IsKeyed rest
    → Memᴰ node (values rest)
    → lookup node.id rest ≡ some node
unfolding lookup
lookup-Memᴰ node [] named keyed m = elim m [ ]
lookup-Memᴰ node ((nid, other) ∷ rest) (same, named) (new, keyed) (Memᴰ.head e) =
    let here : nid ≡ node.id = sym (ap (λ n. n.id) e ∙ same) in
    rw ((str_eq_iff nid node.id).1 here) (ap some (sym e))
lookup-Memᴰ node ((nid, other) ∷ rest) (same, named) (new, keyed) (Memᴰ.tail m) =
    let found = lookup-Memᴰ node rest named keyed m in
    elim (Bool-cases (str_eq nid node.id)) [
      | inl here ↦
          let absent = has-false-lookup nid rest new in
          absurd (
            none-ne-some node
              (sym absent ∙ ap (λ k. lookup k rest) ((str_eq_iff nid node.id).0 here) ∙ found))
      | inr other_id ↦ rw other_id found
    ]

all_mono :
    (done seen deps : List String)
    → ((k : String) → contains k seen ≡ true → contains k done ≡ true)
    → all (λ d. contains d seen) deps ≡ true
    → all (λ d. contains d done) deps ≡ true
all_mono done seen [] h e = refl
all_mono done seen (d ∷ deps) h e = ground (arith, h d, all_mono done seen deps h)

All-keys :
    {J : Type 0} (seen : List String) (k : String) (rest : Dict (TaskNode J))
    → All (λ nid. contains nid seen ≡ true) (keys rest)
    → has k rest ≡ true
    → contains k seen ≡ true
unfolding has
All-keys seen k [] covered h = cc
All-keys seen k ((nid, node) ∷ rest) (first, covered) h =
    ground (arith, str_eq_iff nid k, All-keys seen k rest)

occ_of_contains : (k : String) (xs : List String) → contains k xs ≡ true → 1 ≤ occ k xs
unfolding occ contains
occ_of_contains k [] h = cc
occ_of_contains k (x ∷ xs) h = ground (arith, occ_of_contains k xs)

module _ {J : Type 0} (nodes : Dict (TaskNode J)) where
  abbrev waiting : Dict (List String)
  waiting = add_dependents (values nodes) (no_dependents nodes)

  -- The loop between two rounds: each task is queued, done or waits for dependencies.
  record Between (done : List String) (indegree : Dict ℕ) (queue : List String) : Type 0 where
    degrees :
        (k : String) (node : TaskNode J)
        → lookup k nodes ≡ some node
        → degree k indegree ≡ left node.dependencies done
    places :
        (k : String) → occ k queue + occ k done + pos (degree k indegree) ≡ is_there (has k nodes)

  -- After the tasks that are done, each task of the list comes after its dependencies.
  abbrev pub Follows : List String → List String → Type 0
  Follows done [] = Unit
  Follows done (nid ∷ order) =
      ((node : TaskNode J) × (lookup nid nodes ≡ some node)
        × (all (λ d. contains d done) node.dependencies ≡ true))
      × Follows (nid ∷ done) order

  module _ (done : List String) (indegree : Dict ℕ) (current : String) (queue : List String)
      (b : Between done indegree (current ∷ queue)) where
    current_place :
        (1 ≤ is_there (has current nodes)) × (occ current done ≡ 0) × (degree current indegree ≡ 0)
    unfolding occ
    current_place =
        let here : str_eq current current ≡ true = (str_eq_iff current current).1 refl in
        let place = rw here at (b.places current) in
        let size = is_there_le (has current nodes) in
        (omega arith, omega arith, pos-none (degree current indegree) (omega arith))

    current_node :
        (node : TaskNode J) × (lookup current nodes ≡ some node)
        × (all (λ d. contains d done) node.dependencies ≡ true)
    current_node =
        let (there, _, free) = current_place in
        let (node, found) = lookup_of_has current nodes (has_of_there (has current nodes) there) in
        let same = b.degrees current node found in
        (node, found, left-zero node.dependencies done (omega arith))

    abbrev freed : Dict ℕ × List String
    freed = free_each (or_none (lookup current waiting)) indegree

    round :
        Named nodes
        → IsKeyed nodes
        → Between (current ∷ done) freed.0 (sort_by text_le (queue ++ freed.1))
    unfolding occ
    round named keyed =
        let children = or_none (lookup current waiting) in
        let (there, undone, free) = current_place in
        record {
          degrees = λ k node found.
              let count =
                occ-dependents k current node nodes named keyed found
                  (has_of_there (has current nodes) there) in
              let fall = free_each-degree k children indegree in
              let less =
                left-cons current node.dependencies done (contains-none current done undone) in
              let before = b.degrees k node found in omega arith;
          places = λ k.
              let sorted = occ-sort_by k (queue ++ freed.1) in
              let joined = occ-append k queue freed.1 in
              let moved = free_each-occ k children indegree in
              let before = b.places k in ground arith;
        }

  -- What the loop appends, and how it ends
  abbrev Ends : List String → List String → Type 0
  Ends done order =
      Follows done order
      × ((last : List String) × (indegree : Dict ℕ) × Between last indegree []
          × ((k : String) → occ k last ≡ occ k order + occ k done))

  order_from-Ends :
      Named nodes
      → IsKeyed nodes
      → (fuel : ℕ) (done : List String) (indegree : Dict ℕ) (queue : List String)
      → Between done indegree queue
      → length queue + positives indegree ≤ fuel
      → Ends done (order_from fuel waiting indegree queue)
  unfolding order_from occ
  order_from-Ends named keyed zero done indegree [] b le =
      (tt, (done, indegree, b, λ k. omega arith))
  order_from-Ends named keyed zero done indegree (current ∷ queue) b le = absurd (omega arith)
  order_from-Ends named keyed (suc fuel) done indegree [] b le =
      (tt, (done, indegree, b, λ k. omega arith))
  order_from-Ends named keyed (suc fuel) done indegree (current ∷ queue) b le =
      let children = or_none (lookup current waiting) in
      let newly = (freed done indegree current queue b).1 in
      let fewer = free_each-positives children indegree in
      let sorted = length-sort_by text_le (queue ++ newly) in
      let joined = length-append queue newly in
      let (follows, (last, indegree', end, count)) =
        order_from-Ends named keyed fuel (current ∷ done) (freed done indegree current queue b).0
          (sort_by text_le (queue ++ newly)) (round done indegree current queue b named keyed)
          (omega arith) in
      (
        (current_node done indegree current queue b, follows),
        (last, indegree', end, λ k. let c = count k in ground arith),
      )

  -- When the queue is empty, all tasks that are ranked are done.
  Ranked-done :
      Named nodes
      → IsKeyed nodes
      → (done : List String) (indegree : Dict ℕ) → Between done indegree []
      → (seen : List String) → Ranked (values nodes) seen
      → (k : String) → contains k seen ≡ true
      → contains k done ≡ true
  unfolding contains occ
  Ranked-done named keyed done indegree b [] ranked k h = cc
  Ranked-done named keyed done indegree b (nid ∷ seen) ((node, m, same, later), ranked) k h =
      elim (Bool-cases (str_eq nid k)) [
        | inl e ↦
            let found : lookup k nodes ≡ some node =
              subst (λ x. lookup x nodes ≡ some node) (same ∙ (str_eq_iff nid k).0 e)
                (lookup-Memᴰ node nodes named keyed m) in
            let all_done =
              all_mono done seen node.dependencies
                (Ranked-done named keyed done indegree b seen ranked) later in
            let none_left = zero-left node.dependencies done all_done in
            let same_degree = b.degrees k node found in
            let there = has_of_lookup k node nodes found in
            let place = rw there at (b.places k) in
            let nothing : degree k indegree ≡ 0 = omega arith in
            let counted = rw nothing at place in contains_of_occ k done (omega arith)
        | inr e ↦ Ranked-done named keyed done indegree b seen ranked k (rw e at h)
      ]

  first_round : IsKeyed nodes → Between [] (indegrees nodes) (sort_by text_le (first_queue nodes))
  unfolding occ
  first_round keyed = record {
    degrees =
        λ k node found. degree-indegrees k node nodes found ∙ sym (left-nil node.dependencies);
    places = λ k.
        let sorted = occ-sort_by k (first_queue nodes) in
        let first = occ-first_queue k nodes keyed in omega arith;
  }

  -- In a plan that `validate` accepts, whose tasks stand under their ids, the topological order has
  -- each task once and nothing else, and each task comes after all its dependencies.
  pub topological_order-Follows :
      Named nodes
      → IsKeyed nodes
      → validate nodes ≡ none
      → (order : List String) × (topological_order nodes ≡ ok order)
        × Follows [] order
        × ((k : String) → occ k order ≡ is_there (has k nodes))
  unfolding topological_order occ
  topological_order-Follows named keyed valid =
      let queue = sort_by text_le (first_queue nodes) in
      let sizes = length-first_queue nodes in
      let sorted = length-sort_by text_le (first_queue nodes) in
      let (follows, (last, indegree, end, count)) =
        order_from-Ends named keyed (length nodes) [] (indegrees nodes) queue (first_round keyed)
          (omega arith) in
      let (seen, ranked, covered) = validate-Ranked nodes valid in
      (
        order_from (length nodes) waiting (indegrees nodes) queue,
        rw (topological_order, valid) refl,
        follows,
        λ k.
            let place = end.places k in
            let c = count k in
            elim (Bool-cases (has k nodes)) [
              | inl e ↦
                  let done =
                    Ranked-done named keyed last indegree end seen ranked k
                      (All-keys seen k nodes covered e) in
                  let once = occ_of_contains k last done in rw e (omega (arith, rw e at place))
              | inr e ↦ rw e (omega (arith, rw e at place))
            ],
      )
