-- ===== src/Runtime/Plan/Searches.antt =====
-- The fuel of the search for a cycle is enough: a visit turns a white task gray.
use xenopus.Prelude.{
  ℕ, zero, suc, ◌+◌, ◌≤◌, ◌≡◌, ◌≢◌, refl, Option, none, some, List, [], ◌∷◌, String, arith, length,
}
use xenopus.Prelude.Dict.{Dict, lookup, insert, keys}
use xenopus.Prelude.Sort.{sort_by}
use xenopus.Prelude.Text.{text_le}
use xenopus.Runtime.Plan.Walks.{
  Color, white, gray, black, Search, Walk, cycle, clear, missing, out_of_fuel, visit_each,
  search_each, enter, and_leave, and_then, step, start,
}
use xenopus.Runtime.Plan.{TaskNode, visit, find_cycle, all_white, dependencies_of}

abbrev is_white : Color → ℕ
is_white white = 1
is_white gray = 0
is_white black = 0

unfoldable whites : Dict Color → ℕ
whites [] = 0
whites ((nid, c) ∷ color) = is_white c + whites color

whites-insert_gray :
    (nid : String) (color : Dict Color)
    → lookup nid color ≡ some white
    → suc (whites (insert nid gray color)) ≡ whites color
unfolding whites lookup insert
whites-insert_gray nid [] h = cc
whites-insert_gray nid ((j, c) ∷ color) h = ground (arith, whites-insert_gray nid color)

whites-insert_black :
    (nid : String) (color : Dict Color) → whites (insert nid black color) ≤ whites color
unfolding whites insert
whites-insert_black nid [] = omega arith
whites-insert_black nid ((j, c) ∷ color) = ground (arith, whites-insert_black nid color)

-- The walk ends, with at most `n` white tasks left when it goes on.
Within : ℕ → Walk → Type 0
Within n (cycle nids) = Unit
Within n (clear s) = whites s.color ≤ n
Within n missing = Unit
Within n out_of_fuel = ⊥

Within-mono : (m n : ℕ) (w : Walk) → m ≤ n → Within m w → Within n w
unfolding Within
Within-mono m n (cycle nids) le h = tt
Within-mono m n (clear s) le h = omega arith
Within-mono m n missing le h = tt
Within-mono m n out_of_fuel le h = h

and_leave-Within : (nid : String) (n : ℕ) (w : Walk) → Within n w → Within n (and_leave nid w)
unfolding Within
and_leave-Within nid n (cycle nids) h = tt
and_leave-Within nid n (clear s) h = omega (arith, whites-insert_black nid s.color)
and_leave-Within nid n missing h = tt
and_leave-Within nid n out_of_fuel h = h

and_then-Within :
    (n : ℕ) (w : Walk) (next : Search → Walk)
    → Within n w
    → ((s : Search) → whites s.color ≤ n → Within n (next s))
    → Within n (and_then w next)
unfolding Within
and_then-Within n (cycle nids) next h k = tt
and_then-Within n (clear s) next h k = k s h
and_then-Within n missing next h k = tt
and_then-Within n out_of_fuel next h k = h

-- A visit of a white task
abbrev Visits : ℕ → (String → Search → Walk) → Type 0
Visits n f =
    (nid : String) (s : Search)
    → lookup nid s.color ≡ some white
    → whites s.color ≤ n
    → Within n (f nid s)

module _ (n : ℕ) (f : String → Search → Walk) (ends : Visits n f) where
  abbrev Continues : (Search → Walk) → Type 0
  Continues next = (s : Search) → whites s.color ≤ n → Within n (next s)

  step-Within :
      (dep : String) (next : Search → Walk) (s : Search) (c : Option Color)
      → lookup dep s.color ≡ c
      → Continues next
      → whites s.color ≤ n
      → Within n (step f dep next s c)
  unfolding Within
  step-Within dep next s none e k le = tt
  step-Within dep next s (some gray) e k le = tt
  step-Within dep next s (some white) e k le = and_then-Within n (f dep s) next (ends dep s e le) k
  step-Within dep next s (some black) e k le = k s le

  visit_each-Within : (deps : List String) → Continues (λ s. visit_each f deps s)
  unfolding visit_each Within
  visit_each-Within [] s le = le
  visit_each-Within (dep ∷ deps) s le =
      step-Within dep (λ s'. visit_each f deps s') s (lookup dep s.color) refl
        (visit_each-Within deps) le

  start-Within :
      (nid : String) (next : Search → Walk) (s : Search) (c : Option Color)
      → lookup nid s.color ≡ c
      → Continues next
      → whites s.color ≤ n
      → Within n (start f nid next s c)
  unfolding Within
  start-Within nid next s none e k le = tt
  start-Within nid next s (some gray) e k le = k s le
  start-Within nid next s (some white) e k le = and_then-Within n (f nid s) next (ends nid s e le) k
  start-Within nid next s (some black) e k le = k s le

  search_each-Within : (nids : List String) → Continues (λ s. search_each f nids s)
  unfolding search_each Within
  search_each-Within [] s le = le
  search_each-Within (nid ∷ nids) s le =
      start-Within nid (λ s'. search_each f nids s') s (lookup nid s.color) refl
        (search_each-Within nids) le

module _ {J : Type 0} (nodes : Dict (TaskNode J)) where
  visit-Within : (fuel : ℕ) → Visits fuel (λ nid s. visit nodes fuel nid s)
  unfolding visit Within
  visit-Within zero nid s found le = absurd (omega (arith, whites-insert_gray nid s.color found))
  visit-Within (suc fuel) nid s found le =
      let fewer = whites-insert_gray nid s.color found in
      and_leave-Within nid (suc fuel) _ (
        Within-mono fuel (suc fuel) _ (omega arith) (
          visit_each-Within fuel (λ dep s'. visit nodes fuel dep s') (visit-Within fuel)
            (sort_by text_le (dependencies_of (lookup nid nodes))) (enter nid s) (omega arith)))

  whites-all_white : (rest : Dict (TaskNode J)) → whites (all_white rest) ≡ length rest
  unfolding whites
  whites-all_white [] = refl
  whites-all_white ((nid, node) ∷ rest) = omega (arith, whites-all_white rest)

  -- The search for a cycle ends: the fuel, a round for each task, does not run out.
  pub find_cycle-ends : find_cycle nodes ≢ out_of_fuel
  unfolding find_cycle Within
  find_cycle-ends e =
      let h =
        search_each-Within (length nodes) (λ nid s. visit nodes (length nodes) nid s)
          (visit-Within (length nodes)) (sort_by text_le (keys nodes))
          record { color = all_white nodes; path = [] } (omega (arith, whites-all_white nodes)) in
      rw e at h
