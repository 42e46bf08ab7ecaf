-- ===== src/Prelude/Sort/Insertion.antt =====
-- The sort, and the order that it needs.
use mathlib.Core.Path.{◌≡◌}
use mathlib.Core.Bool.{Bool, true, false}
use mathlib.Core.List.{List, [], ◌∷◌}
use xenopus.Prelude.Tests.{if◌then◌else◌}

module _ {ℓ} {A : Type ℓ} where
  -- In front of the elements that are equal to it: they stood behind it.
  unfoldable pub insert_by : (A → A → Bool) → A → List A → List A
  insert_by le x [] = x ∷ []
  insert_by le x (y ∷ ys) = if le x y then x ∷ y ∷ ys else y ∷ insert_by le x ys

  -- `sorted(xs, key=…)`, for the order `le` of the keys
  unfoldable pub sort_by : (A → A → Bool) → List A → List A
  unfolding insert_by
  sort_by le [] = []
  sort_by le (x ∷ xs) = insert_by le x (sort_by le xs)

  pub record IsTotal (le : A → A → Bool) : Type ℓ where
    pub total : (a b : A) → le a b ≡ false → le b a ≡ true
    pub trans : (a b c : A) → le a b ≡ true → le b c ≡ true → le a c ≡ true

  -- Elements of one key are one element.
  abbrev pub IsAntisymmetric : (A → A → Bool) → Type ℓ
  IsAntisymmetric le = (a b : A) → le a b ≡ true → le b a ≡ true → a ≡ b
