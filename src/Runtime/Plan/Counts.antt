-- ===== src/Runtime/Plan/Counts.antt =====
-- How often a task stands in a list, and what the loop over the waiting tasks does to the degrees.
use xenopus.Prelude.{
  ℕ, zero, suc, ◌+◌, ◌-◌, ◌≤◌, ◌≡◌, refl, Bool, true, false, Option, none, some, List, [], ◌∷◌,
  ◌++◌, String, str_eq, str_eq_iff, arith, length, all, length-append, Bool-cases, inl, inr,
  if◌then◌else◌,
}
use xenopus.Prelude.Dict.{Dict, lookup}
use xenopus.Prelude.Tables.{alter, lookup-alter, apply_to}
use xenopus.Prelude.Sort.{sort_by, insert_by}
use xenopus.Prelude.Text.{text_le}
use xenopus.Runtime.Plan.Queues.{free_each, freed_by}
use xenopus.Runtime.Plan.{contains}

unfoldable pub occ : String → List String → ℕ
occ k [] = 0
occ k (x ∷ xs) = let rest = occ k xs in if str_eq x k then suc rest else rest

pub occ-append : (k : String) (xs ys : List String) → occ k (xs ++ ys) ≡ occ k xs + occ k ys
unfolding occ
occ-append k [] ys = omega arith
occ-append k (x ∷ xs) ys = ground (arith, occ-append k xs ys)

occ-insert_by : (k x : String) (xs : List String) → occ k (insert_by text_le x xs) ≡ occ k (x ∷ xs)
unfolding occ insert_by
occ-insert_by k x [] = refl
occ-insert_by k x (y ∷ ys) = ground (arith, occ-insert_by k x ys)

pub occ-sort_by : (k : String) (xs : List String) → occ k (sort_by text_le xs) ≡ occ k xs
unfolding occ sort_by
occ-sort_by k [] = refl
occ-sort_by k (x ∷ xs) = ground (arith, occ-insert_by k x (sort_by text_le xs), occ-sort_by k xs)

pub contains_of_occ : (k : String) (xs : List String) → 1 ≤ occ k xs → contains k xs ≡ true
unfolding occ contains
contains_of_occ k [] h = absurd (omega arith)
contains_of_occ k (x ∷ xs) h = ground (arith, contains_of_occ k xs)

pub contains-none : (k : String) (xs : List String) → occ k xs ≡ 0 → contains k xs ≡ false
unfolding occ contains
contains-none k [] h = refl
contains-none k (x ∷ xs) h = ground (arith, contains-none k xs)

-- How many dependencies are not done
unfoldable pub left : List String → List String → ℕ
left [] done = 0
left (d ∷ deps) done = let rest = left deps done in if contains d done then rest else suc rest

pub left-nil : (deps : List String) → left deps [] ≡ length deps
unfolding left contains
left-nil [] = refl
left-nil (d ∷ deps) = omega (arith, left-nil deps)

pub left-cons :
    (c : String) (deps done : List String)
    → contains c done ≡ false
    → left deps (c ∷ done) + occ c deps ≡ left deps done
unfolding left occ contains
left-cons c [] done h = refl
left-cons c (d ∷ deps) done h =
    ground (arith, left-cons c deps done, str_eq_iff c d, str_eq_iff d c)

pub left-zero :
    (deps done : List String) → left deps done ≡ 0 → all (λ d. contains d done) deps ≡ true
unfolding left
left-zero [] done h = refl
left-zero (d ∷ deps) done h = ground (arith, left-zero deps done)

pub zero-left :
    (deps done : List String) → all (λ d. contains d done) deps ≡ true → left deps done ≡ 0
unfolding left
zero-left [] done h = refl
zero-left (d ∷ deps) done h = ground (arith, zero-left deps done)

abbrev pub or_zero : Option ℕ → ℕ
or_zero none = 0
or_zero (some d) = d

abbrev pub degree : String → Dict ℕ → ℕ
degree k indegree = or_zero (lookup k indegree)

abbrev pub pos : ℕ → ℕ
pos zero = 0
pos (suc n) = 1

unfoldable pub positives : Dict ℕ → ℕ
positives [] = 0
positives ((k, d) ∷ indegree) = pos d + positives indegree

abbrev decremented : String → Dict ℕ → Dict ℕ
decremented c indegree = alter c (λ d. d - 1) indegree

or_zero-apply_to :
    (b : Bool) (o : Option ℕ)
    → or_zero (if b then apply_to (λ d. d - 1) o else o) ≡ (if b then or_zero o - 1 else or_zero o)
or_zero-apply_to true none = omega arith
or_zero-apply_to true (some d) = refl
or_zero-apply_to false o = refl

degree-decremented :
    (k c : String) (indegree : Dict ℕ)
    → degree k (decremented c indegree)
      ≡ (if str_eq c k then degree k indegree - 1 else degree k indegree)
degree-decremented k c indegree =
    rw (lookup-alter c k (λ d. d - 1) indegree) (or_zero-apply_to (str_eq c k) (lookup k indegree))

occ-freed_self :
    (o : Option ℕ) (k : String) → occ k (freed_by o k) + pos (or_zero o - 1) ≡ pos (or_zero o)
unfolding occ
occ-freed_self none k = omega arith
occ-freed_self (some zero) k = refl
occ-freed_self (some (suc zero)) k = ground (arith, str_eq_iff k k)
occ-freed_self (some (suc (suc d))) k = ground arith

occ-freed_other : (o : Option ℕ) (k c : String) → str_eq c k ≡ false → occ k (freed_by o c) ≡ 0
unfolding occ
occ-freed_other none k c h = refl
occ-freed_other (some d) k c h = ground arith

occ-freed_by :
    (k c : String) (indegree : Dict ℕ)
    → occ k (freed_by (lookup c indegree) c) + pos (degree k (decremented c indegree))
      ≡ pos (degree k indegree)
occ-freed_by k c indegree = elim (Bool-cases (str_eq c k)) [
  | inl e ↦
      let same : c ≡ k = (str_eq_iff c k).0 e in
      rw (degree-decremented k c indegree, e, same) (occ-freed_self (lookup k indegree) k)
  | inr e ↦
      rw (degree-decremented k c indegree, e, occ-freed_other (lookup c indegree) k c e)
        (omega arith)
]

positives-freed_by :
    (c : String) (indegree : Dict ℕ)
    → length (freed_by (lookup c indegree) c) + positives (decremented c indegree)
      ≡ positives indegree
unfolding positives lookup alter
positives-freed_by c [] = refl
positives-freed_by c ((j, d) ∷ indegree) = ground (arith, positives-freed_by c indegree)

module _ (k : String) where
  pub free_each-degree :
      (children : List String) (indegree : Dict ℕ)
      → degree k (free_each children indegree).0 ≡ degree k indegree - occ k children
  unfolding free_each occ
  free_each-degree [] indegree = omega arith
  free_each-degree (c ∷ children) indegree =
      let rest = free_each-degree children (decremented c indegree) in
      let once = degree-decremented k c indegree in ground (arith)

  pub free_each-occ :
      (children : List String) (indegree : Dict ℕ)
      → occ k (free_each children indegree).1 + pos (degree k (free_each children indegree).0)
        ≡ pos (degree k indegree)
  unfolding free_each occ lookup
  free_each-occ [] indegree = omega arith
  free_each-occ (c ∷ children) indegree =
      let rest = free_each-occ children (decremented c indegree) in
      let once = occ-freed_by k c indegree in
      rw
        (occ-append k (freed_by (lookup c indegree) c)
          (free_each children (decremented c indegree)).1)
        (omega arith)

pub free_each-positives :
    (children : List String) (indegree : Dict ℕ)
    → length (free_each children indegree).1 + positives (free_each children indegree).0
      ≡ positives indegree
unfolding free_each
free_each-positives [] indegree = omega arith
free_each-positives (c ∷ children) indegree =
    let rest = free_each-positives children (decremented c indegree) in
    let once = positives-freed_by c indegree in
    rw
      (length-append (freed_by (lookup c indegree) c)
        (free_each children (decremented c indegree)).1)
      (omega arith)
