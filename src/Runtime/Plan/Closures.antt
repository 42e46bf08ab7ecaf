-- ===== src/Runtime/Plan/Closures.antt =====
-- The fuel of `reachable_from_roots` is enough: a round that changes the set sees a new task.
use mathlib.Core.List.{Memᴰ}
use xenopus.Prelude.{
  ℕ, zero, suc, ◌≤◌, ◌<◌, ◌≡◌, ◌⊎◌, inl, inr, refl, true, false, List, [], ◌∷◌, String, str_eq,
  str_eq_iff, arith, length, Bool-cases, ◌==◌, ap, subst, if◌then◌else◌,
}
use xenopus.Prelude.Dict.{Dict, values}
use xenopus.Runtime.Plan.{
  TaskNode, contains, is_next, see_each, see_all, free_nodes, reachable_from_roots,
}

module _ {J : Type 0} where
  -- How many tasks are not seen
  unfoldable unseen : List (TaskNode J) → List String → ℕ
  unseen [] seen = 0
  unseen (node ∷ nodes) seen =
      let rest = unseen nodes seen in if contains node.id seen then rest else suc rest

  unseen-cons-le :
      (nodes : List (TaskNode J)) (k : String) (seen : List String)
      → unseen nodes (k ∷ seen) ≤ unseen nodes seen
  unfolding unseen contains
  unseen-cons-le [] k seen = omega arith
  unseen-cons-le (node ∷ nodes) k seen = ground (arith, unseen-cons-le nodes k seen)

  unseen-cons-lt :
      (node : TaskNode J) (nodes : List (TaskNode J)) (seen : List String)
      → Memᴰ node nodes
      → contains node.id seen ≡ false
      → unseen nodes (node.id ∷ seen) < unseen nodes seen
  unfolding unseen contains
  unseen-cons-lt node [] seen m new = elim m [ ]
  unseen-cons-lt node (other ∷ nodes) seen (Memᴰ.head e) new =
      let id : node.id ≡ other.id = ap (λ n. n.id) e in
      let first : contains other.id seen ≡ false = subst (λ k. contains k seen ≡ false) id new in
      let here : str_eq node.id other.id ≡ true = (str_eq_iff node.id other.id).1 id in
      let fewer = unseen-cons-le nodes node.id seen in rw (here, first) (omega arith)
  unseen-cons-lt node (other ∷ nodes) seen (Memᴰ.tail m) new =
      ground (arith, unseen-cons-lt node nodes seen m new)

  -- A round sees no task, or more than before.
  abbrev Grows : List (TaskNode J) → List String → List String → Type 0
  Grows nodes seen seen' =
      (seen' ≡ seen) ⊎ ((length seen < length seen') × (unseen nodes seen' < unseen nodes seen))

  see_each-Grows :
      (nodes rest : List (TaskNode J)) (seen : List String)
      → ((node : TaskNode J) → Memᴰ node rest → Memᴰ node nodes)
      → Grows nodes seen (see_each rest seen)
  unfolding see_each
  see_each-Grows nodes [] seen inc = inl refl
  see_each-Grows nodes (node ∷ rest) seen inc = elim (Bool-cases (is_next node seen)) [
    | inr e ↦ rw e (see_each-Grows nodes rest seen (λ n m. inc n (Memᴰ.tail m)))
    | inl e ↦
        let new : contains node.id seen ≡ false = ground arith in
        let fewer = unseen-cons-lt node nodes seen (inc node (Memᴰ.head refl)) new in
        rw e (elim (see_each-Grows nodes rest (node.id ∷ seen) (λ n m. inc n (Memᴰ.tail m))) [
          | inl same ↦ inr (rw same (omega arith, fewer))
          | inr (longer, less) ↦ inr (omega arith, omega arith)
        ])
  ]

  see_all-closed :
      (fuel : ℕ) (nodes : List (TaskNode J)) (seen : List String)
      → unseen nodes seen < fuel
      → see_each nodes (see_all fuel nodes seen) ≡ see_all fuel nodes seen
  unfolding see_all
  see_all-closed zero nodes seen lt = absurd (omega arith)
  see_all-closed (suc fuel) nodes seen lt = elim (see_each-Grows nodes nodes seen (λ n m. m)) [
    | inl same ↦
        let stop : (length (see_each nodes seen) == length seen) ≡ true = ground arith in
        rw stop (ap (see_each nodes) same)
    | inr (longer, less) ↦
        let go : (length (see_each nodes seen) == length seen) ≡ false = ground arith in
        rw go (see_all-closed fuel nodes (see_each nodes seen) (omega arith))
  ]

  unseen-le : (nodes : List (TaskNode J)) (seen : List String) → unseen nodes seen ≤ length nodes
  unfolding unseen
  unseen-le [] seen = omega arith
  unseen-le (node ∷ nodes) seen = ground (arith, unseen-le nodes seen)

  length-values : (nodes : Dict (TaskNode J)) → length (values nodes) ≡ length nodes
  length-values [] = refl
  length-values ((nid, node) ∷ nodes) = omega (arith, length-values nodes)

  -- The set of reachable tasks is closed: another round of the loop sees no further task.
  reachable_from_roots-closed :
      (nodes : Dict (TaskNode J))
      → see_each (values nodes) (reachable_from_roots nodes) ≡ reachable_from_roots nodes
  unfolding reachable_from_roots
  reachable_from_roots-closed nodes =
      let seen = free_nodes (values nodes) [] in
      see_all-closed (suc (length nodes)) (values nodes) seen
        (omega (arith, unseen-le (values nodes) seen, length-values nodes))
