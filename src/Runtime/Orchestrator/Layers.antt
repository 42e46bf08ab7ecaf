-- ===== src/Runtime/Orchestrator/Layers.antt =====
-- The layers of a plan hold each of its tasks once.
use mathlib.Core.Bool.{false≢true}
use xenopus.Prelude.{
  ℕ, zero, suc, ◌+◌, ◌≡◌, refl, ap, ◌∙◌, max, true, some, List, [], ◌∷◌, ◌++◌, String, str_eq, ok,
  all, arith, Bool-cases, inl, inr, is_empty, if◌then◌else◌,
}
use xenopus.Prelude.Dict.{Dict, lookup, insert, lookup-insert, has}
use xenopus.Runtime.Plan.{TaskNode, contains, topological_order}
use xenopus.Runtime.Plan.Counts.{occ, occ-append}
use xenopus.Runtime.Plan.Dependents.{is_there}
use xenopus.Runtime.Plan.Orders.{Follows}
use xenopus.Runtime.Orchestrator.{
  place_at, index_below, group_each, dependency_layers, layers_in, or_key_error,
}

-- The tasks of all layers
unfoldable pub flat : List (List String) → List String
flat [] = []
flat (layer ∷ layers) = layer ++ flat layers

occ-place_at :
    (k nid : String) (n : ℕ) (layers : List (List String))
    → occ k (flat (place_at n nid layers)) ≡ occ k (flat layers) + occ k (nid ∷ [])
unfolding place_at flat
occ-place_at k nid zero [] = omega (arith, occ-append k (nid ∷ []) [])
occ-place_at k nid zero (layer ∷ layers) = omega (
  arith,
  occ-append k (layer ++ nid ∷ []) (flat layers),
  occ-append k layer (nid ∷ []),
  occ-append k layer (flat layers),
)
occ-place_at k nid (suc n) [] = occ-place_at k nid n []
occ-place_at k nid (suc n) (layer ∷ layers) = omega (
  arith,
  occ-append k layer (flat (place_at n nid layers)),
  occ-append k layer (flat layers),
  occ-place_at k nid n layers,
)

-- The tasks that are done have their layers.
abbrev HasPlaces : List String → Dict ℕ → Type 0
HasPlaces done placed = (d : String) → contains d done ≡ true → (n : ℕ) × (lookup d placed ≡ some n)

index_below-some :
    (done deps : List String) (placed : Dict ℕ)
    → HasPlaces done placed
    → all (λ d. contains d done) deps ≡ true
    → (n : ℕ) × (index_below deps placed ≡ some n)
unfolding index_below
index_below-some done [] placed has_places h = (0, refl)
index_below-some done (d ∷ deps) placed has_places h =
    let (n, found) = has_places d (ground arith) in
    let (m, rest) = index_below-some done deps placed has_places (ground arith) in
    (max n m, rw (found, rest) refl)

insert-HasPlaces :
    (nid : String) (n : ℕ) (done : List String) (placed : Dict ℕ)
    → HasPlaces done placed
    → HasPlaces (nid ∷ done) (insert nid n placed)
unfolding contains
insert-HasPlaces nid n done placed has_places d h = elim (Bool-cases (str_eq nid d)) [
  | inl e ↦ (n, rw (lookup-insert nid d n placed, e) refl)
  | inr e ↦
      let (m, found) = has_places d (rw e at h) in (m, rw (lookup-insert nid d n placed, e) found)
]

no_places : HasPlaces [] []
unfolding contains
no_places d h = absurd (false≢true h)

occ-nil : (k : String) → occ k [] ≡ 0
unfolding occ
occ-nil k = refl

module _ {J : Type 0} (nodes : Dict (TaskNode J)) where
  group_each-some :
      (order done : List String) (placed : Dict ℕ) (layers : List (List String))
      → Follows nodes done order
      → HasPlaces done placed
      → (grouped : List (List String)) × (group_each nodes order placed layers ≡ some grouped)
        × ((k : String) → occ k (flat grouped) ≡ occ k (flat layers) + occ k order)
  unfolding group_each
  group_each-some [] done placed layers follows has_places =
      (layers, refl, λ k. omega (arith, occ-nil k))
  group_each-some (nid ∷ order) done placed layers ((node, found, before), follows) has_places =
      let (m, below) = index_below-some done node.dependencies placed has_places before in
      let n : ℕ = if is_empty node.dependencies then 0 else suc m in
      let (grouped, rest, count) =
        group_each-some order (nid ∷ done) (insert nid n placed) (place_at n nid layers) follows
          (insert-HasPlaces nid n done placed has_places) in
      (
        grouped,
        rw (found, below) rest,
        λ k. omega (arith, count k, occ-place_at k nid n layers, occ-append k (nid ∷ []) order),
      )

  -- When the order has each task once, each after its dependencies, so have the layers.
  pub dependency_layers-once :
      (order : List String)
      → topological_order nodes ≡ ok order
      → Follows nodes [] order
      → ((k : String) → occ k order ≡ is_there (has k nodes))
      → (layers : List (List String)) × (dependency_layers nodes ≡ ok layers)
        × ((k : String) → occ k (flat layers) ≡ is_there (has k nodes))
  unfolding dependency_layers flat occ
  dependency_layers-once order sorted follows once =
      let (grouped, all_placed, count) = group_each-some order [] [] [] follows no_places in
      (
        grouped,
        ap (layers_in nodes) sorted ∙ ap (or_key_error nodes) all_placed,
        λ k. omega (arith, count k, once k),
      )
