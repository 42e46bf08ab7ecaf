-- ===== src/Prelude/Sort/Sorted.antt =====
-- A sorted list is a permutation of its input, ascends, and is the only such list.
use mathlib.Core.Path.{◌≡◌, refl, ap₂}
use mathlib.Core.Bool.{Bool, true}
use mathlib.Core.List.{List, [], ◌∷◌, Perm, Mem, mem-cons_self, mem-cons, not-mem-nil, Memᴰ}
use mathlib.Core.List.Perm
use mathlib.Core.Logic.Or
use native.Mathlib.Omega.{arith}
use Prim.Native.Nat.{suc}
use mathlib.Core.Logic.{inl, inr}
use xenopus.Prelude.Tests.{Bool-cases}
use xenopus.Prelude.Lists.{All, All-map, length}
use xenopus.Prelude.Sort.Insertion.{insert_by, sort_by, IsTotal, IsAntisymmetric}

Memᴰ-swap {ℓ} :
    {A : Type ℓ} {a : A} (x y : A) (ys : List A) {zs : List A}
    → Memᴰ a (x ∷ y ∷ ys)
    → (Memᴰ a (x ∷ ys) → Memᴰ a zs)
    → Memᴰ a (y ∷ zs)
Memᴰ-swap x y ys (Memᴰ.head e) f = Memᴰ.tail (f (Memᴰ.head e))
Memᴰ-swap x y ys (Memᴰ.tail (Memᴰ.head e)) f = Memᴰ.head e
Memᴰ-swap x y ys (Memᴰ.tail (Memᴰ.tail m)) f = Memᴰ.tail (f (Memᴰ.tail m))

All-Mem {ℓ} :
    {A : Type ℓ} (p : A → Bool) {a : A} (xs : List A)
    → All (λ x. p x ≡ true) xs
    → Mem a xs
    → p a ≡ true
All-Mem p [] h m = absurd (not-mem-nil m)
All-Mem p (x ∷ xs) h m = Or.elim (hlevel) (mem-cons.0 m) (λ e. rw e h.0) (All-Mem p xs h.1)

module _ {ℓ} {A : Type ℓ} (le : A → A → Bool) where
  -- Every element before every later one
  abbrev pub Ascends : List A → Type ℓ
  Ascends [] = Unit
  Ascends (x ∷ xs) = All (λ y. le x y ≡ true) xs × Ascends xs

  insert_by-perm : (x : A) (xs : List A) → Perm (insert_by le x xs) (x ∷ xs)
  unfolding insert_by
  insert_by-perm x [] = Perm.rfl
  insert_by-perm x (y ∷ ys) = elim (Bool-cases (le x y)) [
    | inl e ↦ rw e Perm.rfl
    | inr e ↦ rw e (Perm.trans (Perm.cons y (insert_by-perm x ys)) (Perm.swap x y ys))
  ]

  pub sort_by-perm : (xs : List A) → Perm (sort_by le xs) xs
  unfolding sort_by
  sort_by-perm [] = Perm.rfl
  sort_by-perm (x ∷ xs) =
      Perm.trans (insert_by-perm x (sort_by le xs)) (Perm.cons x (sort_by-perm xs))

  pub All-insert_by {κ} :
      (P : A → Type κ) (x : A) (xs : List A) → P x → All P xs → All P (insert_by le x xs)
  unfolding insert_by
  All-insert_by P x [] p h = (p, tt)
  All-insert_by P x (y ∷ ys) p h = elim (Bool-cases (le x y)) [
    | inl e ↦ rw e (p, h)
    | inr e ↦ rw e (h.0, All-insert_by P x ys p h.1)
  ]

  pub All-sort_by {κ} : (P : A → Type κ) (xs : List A) → All P xs → All P (sort_by le xs)
  unfolding sort_by
  All-sort_by P [] h = tt
  All-sort_by P (x ∷ xs) h = All-insert_by P x (sort_by le xs) h.0 (All-sort_by P xs h.1)

  pub Memᴰ-insert_by : {a : A} (x : A) (xs : List A) → Memᴰ a (x ∷ xs) → Memᴰ a (insert_by le x xs)
  unfolding insert_by
  Memᴰ-insert_by x [] m = m
  Memᴰ-insert_by {a} x (y ∷ ys) m = elim (Bool-cases (le x y)) [
    | inl e ↦ rw e m
    | inr e ↦ rw e (Memᴰ-swap x y ys m (Memᴰ-insert_by {a = a} x ys))
  ]

  pub Memᴰ-sort_by : {a : A} (xs : List A) → Memᴰ a xs → Memᴰ a (sort_by le xs)
  unfolding sort_by
  Memᴰ-sort_by [] m = elim m [ ]
  Memᴰ-sort_by (x ∷ xs) (Memᴰ.head e) = Memᴰ-insert_by x (sort_by le xs) (Memᴰ.head e)
  Memᴰ-sort_by (x ∷ xs) (Memᴰ.tail m) =
      Memᴰ-insert_by x (sort_by le xs) (Memᴰ.tail (Memᴰ-sort_by xs m))

  length-insert_by : (x : A) (xs : List A) → length (insert_by le x xs) ≡ suc (length xs)
  unfolding insert_by
  length-insert_by x [] = refl
  length-insert_by x (y ∷ ys) = ground (arith, length-insert_by x ys)

  pub length-sort_by : (xs : List A) → length (sort_by le xs) ≡ length xs
  unfolding sort_by
  length-sort_by [] = refl
  length-sort_by (x ∷ xs) = omega (arith, length-insert_by x (sort_by le xs), length-sort_by xs)

  module _ (o : IsTotal le) where
    insert_by-Ascends : (x : A) (xs : List A) → Ascends xs → Ascends (insert_by le x xs)
    unfolding insert_by
    insert_by-Ascends x [] s = (tt, tt)
    insert_by-Ascends x (y ∷ ys) s = elim (Bool-cases (le x y)) [
      | inl e ↦ rw e ((e, All-map _ _ (λ z h. o.trans x y z e h) ys s.0), s)
      | inr e ↦
          rw e (
            All-insert_by (λ z. le y z ≡ true) x ys (o.total x y e) s.0,
            insert_by-Ascends x ys s.1,
          )
    ]

    pub sort_by-Ascends : (xs : List A) → Ascends (sort_by le xs)
    unfolding sort_by
    sort_by-Ascends [] = tt
    sort_by-Ascends (x ∷ xs) = insert_by-Ascends x (sort_by le xs) (sort_by-Ascends xs)

    -- A head that comes before all of its own list comes before any element of a permutation of it.
    le_head :
        {a b : A} {xs : List A} → Ascends (a ∷ xs) → le a a ≡ true → Mem b (a ∷ xs) → le a b ≡ true
    le_head {a} {b} {xs} s r m = All-Mem (le a) (a ∷ xs) (r, s.0) m

    le_refl : (a : A) → le a a ≡ true
    le_refl a = elim (Bool-cases (le a a)) [ inl e ↦ e | inr e ↦ o.total a a e ]

    pub Ascends-eq_of_perm :
        IsAntisymmetric le → (xs ys : List A) → Ascends xs → Ascends ys → Perm xs ys → xs ≡ ys
    Ascends-eq_of_perm anti [] ys s t p = Perm.nil-eq p
    Ascends-eq_of_perm anti (x ∷ xs) [] s t p = Perm.eq-nil p
    Ascends-eq_of_perm anti (x ∷ xs) (y ∷ ys) s t p =
        let heads =
          anti x y (le_head s (le_refl x) ((Perm.mem_iff p).1 mem-cons_self))
            (le_head t (le_refl y) ((Perm.mem_iff p).0 mem-cons_self)) in
        let tails = Perm.cons_inv (Perm.trans p (Perm.symm (Perm.cons' heads Perm.rfl))) in
        ap₂ ◌∷◌ heads (Ascends-eq_of_perm anti xs ys s.1 t.1 tails)

    -- The result depends on which elements there are, not on the order in which they come.
    pub sort_by-eq_of_perm :
        IsAntisymmetric le → (xs ys : List A) → Perm xs ys → sort_by le xs ≡ sort_by le ys
    sort_by-eq_of_perm anti xs ys p =
        Ascends-eq_of_perm anti (sort_by le xs) (sort_by le ys) (sort_by-Ascends xs)
          (sort_by-Ascends ys)
          (Perm.trans (sort_by-perm xs) (Perm.trans p (Perm.symm (sort_by-perm ys))))
