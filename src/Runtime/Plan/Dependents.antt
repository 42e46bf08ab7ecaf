-- ===== src/Runtime/Plan/Dependents.antt =====
-- The dict of dependents, and the degrees that the loop starts with.
use xenopus.Prelude.{
  ℕ, zero, suc, ◌+◌, ◌≡◌, refl, ap, Bool, true, false, some, List, [], ◌∷◌, ◌++◌, String, str_eq,
  str_eq_iff, arith, length, Bool-cases, inl, inr, if◌then◌else◌, ◌==◌, filter,
}
use xenopus.Prelude.Dict.{Dict, lookup, has, keys, values}
use xenopus.Prelude.Tables.{alter, lookup-alter, IsKeyed}
use xenopus.Runtime.Plan.Queues.{add_dependent, or_none}
use xenopus.Runtime.Plan.Counts.{occ, occ-append, degree, pos, positives}
use xenopus.Runtime.Plan.{TaskNode, add_dependents, no_dependents, indegrees}

-- A dict that has the key, with `n` more of `k` under it
abbrev Grows : String → String → ℕ → Dict (List String) → Dict (List String) → Type 0
Grows k c n before after =
    (xs : List String)
    → lookup c before ≡ some xs
    → (ys : List String) × (lookup c after ≡ some ys) × (occ k ys ≡ occ k xs + n)

add_dependent-Grows :
    (k c nid : String) (deps : List String) (dependents : Dict (List String))
    → Grows k c
        (if str_eq nid k then occ c deps else 0)
        dependents
        (add_dependent nid deps dependents)
unfolding add_dependent occ
add_dependent-Grows k c nid [] dependents xs found = (xs, found, ground arith)
add_dependent-Grows k c nid (dep ∷ deps) dependents xs found =
    let altered = lookup-alter dep c (λ nids. nids ++ nid ∷ []) dependents in
    elim (Bool-cases (str_eq dep c)) [
      | inl e ↦
          let (ys, found', more) =
            add_dependent-Grows k c nid deps (alter dep (λ nids. nids ++ nid ∷ []) dependents)
              (xs ++ nid ∷ []) (rw (altered, e, found) refl) in
          (ys, found', ground (arith, occ-append k xs (nid ∷ [])))
      | inr e ↦
          let (ys, found', more) =
            add_dependent-Grows k c nid deps (alter dep (λ nids. nids ++ nid ∷ []) dependents) xs
              (rw (altered, e) found) in
          (ys, found', ground arith)
    ]

pos-zero : (n : ℕ) → (n == 0) ≡ true → pos n ≡ 0
pos-zero zero h = refl
pos-zero (suc n) h = ground arith

pos-suc : (n : ℕ) → (n == 0) ≡ false → pos n ≡ 1
pos-suc zero h = cc
pos-suc (suc n) h = refl

abbrev pub is_there : Bool → ℕ
is_there true = 1
is_there false = 0

module _ {J : Type 0} where
  -- How often the tasks named `k` depend on `c`
  unfoldable pub needs : String → String → List (TaskNode J) → ℕ
  needs k c [] = 0
  needs k c (node ∷ nodes) =
      (if str_eq node.id k then occ c node.dependencies else 0) + needs k c nodes

  add_dependents-Grows :
      (k c : String) (nodes : List (TaskNode J)) (dependents : Dict (List String))
      → Grows k c (needs k c nodes) dependents (add_dependents nodes dependents)
  unfolding add_dependents needs
  add_dependents-Grows k c [] dependents xs found = (xs, found, omega arith)
  add_dependents-Grows k c (node ∷ nodes) dependents xs found =
      let (ys, found', more) =
        add_dependent-Grows k c node.id node.dependencies dependents xs found in
      let (zs, found'', rest) =
        add_dependents-Grows k c nodes (add_dependent node.id node.dependencies dependents) ys
          found' in
      (zs, found'', omega arith)

  -- A dict of tasks by their ids
  abbrev pub Named : Dict (TaskNode J) → Type 0
  Named [] = Unit
  Named ((nid, node) ∷ nodes) = (node.id ≡ nid) × Named nodes

  needs-absent :
      (k c : String) (nodes : Dict (TaskNode J))
      → Named nodes
      → has k nodes ≡ false
      → needs k c (values nodes) ≡ 0
  unfolding needs has
  needs-absent k c [] named h = refl
  needs-absent k c ((nid, node) ∷ nodes) (same, named) h =
      rw same (ground (arith, needs-absent k c nodes named))

  needs-lookup :
      (k c : String) (node : TaskNode J) (nodes : Dict (TaskNode J))
      → Named nodes
      → IsKeyed nodes
      → lookup k nodes ≡ some node
      → needs k c (values nodes) ≡ occ c node.dependencies
  unfolding needs lookup
  needs-lookup k c node [] named keyed found = cc
  needs-lookup k c node ((nid, other) ∷ nodes) (same, named) (new, keyed) found =
      elim (Bool-cases (str_eq nid k)) [
        | inl e ↦
            let eq : nid ≡ k = (str_eq_iff nid k).0 e in
            let absent = needs-absent k c nodes named (rw eq at new) in
            let here : str_eq other.id k ≡ true = rw same e in
            let one : other ≡ node = cc (rw e at found) in
            let many : occ c other.dependencies ≡ occ c node.dependencies =
              ap (λ n. occ c n.dependencies) one in
            rw (here, absent) (omega arith)
        | inr e ↦
            let here : str_eq other.id k ≡ false = rw same e in
            let rest = needs-lookup k c node nodes named keyed (rw e at found) in
            rw here (omega arith)
      ]

  lookup-no_dependents :
      (c : String) (nodes : Dict (TaskNode J))
      → has c nodes ≡ true
      → lookup c (no_dependents nodes) ≡ some []
  unfolding has lookup
  lookup-no_dependents c [] h = cc
  lookup-no_dependents c ((nid, node) ∷ nodes) h = ground (arith, lookup-no_dependents c nodes)

  -- The dependents of `c`, each as often as it depends on it
  pub occ-dependents :
      (k c : String) (node : TaskNode J) (nodes : Dict (TaskNode J))
      → Named nodes
      → IsKeyed nodes
      → lookup k nodes ≡ some node
      → has c nodes ≡ true
      → occ k (or_none (lookup c (add_dependents (values nodes) (no_dependents nodes))))
        ≡ occ c node.dependencies
  unfolding occ
  occ-dependents k c node nodes named keyed found present =
      let (ys, there, grown) =
        add_dependents-Grows k c (values nodes) (no_dependents nodes) []
          (lookup-no_dependents c nodes present) in
      let count = needs-lookup k c node nodes named keyed found in rw there (omega arith)

  pub degree-indegrees :
      (k : String) (node : TaskNode J) (nodes : Dict (TaskNode J))
      → lookup k nodes ≡ some node
      → degree k (indegrees nodes) ≡ length node.dependencies
  unfolding lookup
  degree-indegrees k node [] found = cc
  degree-indegrees k node ((nid, other) ∷ nodes) found = elim (Bool-cases (str_eq nid k)) [
    | inl e ↦
        let one : other ≡ node = cc (rw e at found) in rw e (ap (λ n. length n.dependencies) one)
    | inr e ↦ rw e (degree-indegrees k node nodes (rw e at found))
  ]

  -- The tasks of degree 0
  abbrev pub first_queue : Dict (TaskNode J) → List String
  first_queue nodes = keys (filter (λ e. e.1 == 0) (indegrees nodes))

  absent-queue :
      (k : String) (nodes : Dict (TaskNode J))
      → has k nodes ≡ false
      → (occ k (first_queue nodes) ≡ 0) × (degree k (indegrees nodes) ≡ 0)
  unfolding has lookup occ
  absent-queue k [] h = (refl, refl)
  absent-queue k ((nid, node) ∷ nodes) h =
      (ground (arith, absent-queue k nodes), ground (arith, absent-queue k nodes))

  pub occ-first_queue :
      (k : String) (nodes : Dict (TaskNode J))
      → IsKeyed nodes
      → occ k (first_queue nodes) + pos (degree k (indegrees nodes)) ≡ is_there (has k nodes)
  unfolding has lookup occ
  occ-first_queue k [] keyed = omega arith
  occ-first_queue k ((nid, node) ∷ nodes) (new, keyed) = elim (Bool-cases (str_eq nid k)) [
    | inl e ↦
        let eq : nid ≡ k = (str_eq_iff nid k).0 e in
        let (none_there, zero_there) = absent-queue k nodes (rw eq at new) in
        elim (Bool-cases (length node.dependencies == 0)) [
          | inl z ↦ rw (z, e) (omega (arith, pos-zero (length node.dependencies) z))
          | inr z ↦ rw (z, e) (omega (arith, pos-suc (length node.dependencies) z))
        ]
    | inr e ↦
        let rest = occ-first_queue k nodes keyed in
        elim (Bool-cases (length node.dependencies == 0)) [
          | inl z ↦ rw (z, e) rest
          | inr z ↦ rw (z, e) rest
        ]
  ]

  pub length-first_queue :
      (nodes : Dict (TaskNode J))
      → length (first_queue nodes) + positives (indegrees nodes) ≡ length nodes
  unfolding positives
  length-first_queue [] = omega arith
  length-first_queue ((nid, node) ∷ nodes) = ground (arith, length-first_queue nodes)
