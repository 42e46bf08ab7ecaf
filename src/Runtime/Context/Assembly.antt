-- ===== src/Runtime/Context/Assembly.antt =====
-- What an assembled context holds.
use mathlib.Core.List.{Sublistᴰ, Memᴰ, reverse, reverse_aux, reverse-reverse}
use xenopus.Prelude.{
  ℕ, ◌+◌, ◌-◌, ◌≤◌, ◌<◌, ◌≡◌, ◌⊎◌, inl, inr, refl, sym, ap, ◌∙◌, subst, Bool, true, false, List, [],
  ◌∷◌, ◌++◌, map, ok, leb, arith, str_eq_iff, All, All-map, Bool-cases,
}
use xenopus.Prelude.Sort.{sort_by, insert_by}
use xenopus.Runtime.Context.{
  ContextSegment, Message, total, protected_of, droppable_of, fill, kept_of, precedes, chosen,
  assemble, index, is_same, Role, is_same_role, same_flag,
}

nil_Sublist : (xs : List ContextSegment) → Sublistᴰ [] xs
nil_Sublist [] = Sublistᴰ.slnil
nil_Sublist (x ∷ xs) = Sublistᴰ.cons (nil_Sublist xs)

fill-Sublist : (r : ℕ) (xs : List ContextSegment) → Sublistᴰ (fill r xs) xs
unfolding fill
fill-Sublist r [] = Sublistᴰ.slnil
fill-Sublist r (x ∷ xs) = elim (Bool-cases (leb r 0)) [
  | inl e ↦ rw e (nil_Sublist (x ∷ xs))
  | inr e ↦ elim (Bool-cases (leb x.est_tokens r)) [
    | inl fits ↦ rw (e, fits) (Sublistᴰ.cons-cons refl (fill-Sublist (r - x.est_tokens) xs))
    | inr big ↦ rw (e, big) (Sublistᴰ.cons (fill-Sublist r xs))
  ]
]

fill-le : (r : ℕ) (xs : List ContextSegment) → total (fill r xs) ≤ r
unfolding fill total
fill-le r [] = omega arith
fill-le r (x ∷ xs) = ground (arith, fill-le (r - x.est_tokens) xs, fill-le r xs)

-- A droppable segment is kept or does not fit besides the kept ones.
abbrev pub Placed : List ContextSegment → ℕ → ContextSegment → Type 0
Placed kept r s = Memᴰ s kept ⊎ (r < total kept + s.est_tokens)

Placed-cons :
    (r : ℕ) (x s : ContextSegment) {kept : List ContextSegment}
    → leb x.est_tokens r ≡ true
    → Placed kept (r - x.est_tokens) s
    → Placed (x ∷ kept) r s
unfolding total
Placed-cons r x s fits (inl m) = inl (Memᴰ.tail m)
Placed-cons r x s {kept} fits (inr far) = inr (ground arith)

fill-Placed :
    (r : ℕ) (xs : List ContextSegment)
    → All (λ s. 1 ≤ s.est_tokens) xs
    → All (Placed (fill r xs) r) xs
unfolding fill total
fill-Placed r [] h = tt
fill-Placed r (x ∷ xs) (pos, h) = elim (Bool-cases (leb r 0)) [
  | inl e ↦
      let same : fill r (x ∷ xs) ≡ [] = rw e refl in
      subst (λ k. All (Placed k r) (x ∷ xs)) (sym same)
        (
          inr (ground arith),
          All-map (λ s. 1 ≤ s.est_tokens) (Placed [] r) (λ s p. inr (ground arith)) xs h,
        )
  | inr e ↦ elim (Bool-cases (leb x.est_tokens r)) [
    | inl fits ↦
        let same : fill r (x ∷ xs) ≡ x ∷ fill (r - x.est_tokens) xs = rw (e, fits) refl in
        subst (λ k. All (Placed k r) (x ∷ xs)) (sym same)
          (
            inl (Memᴰ.head refl),
            All-map (Placed (fill (r - x.est_tokens) xs) (r - x.est_tokens))
                (Placed (x ∷ fill (r - x.est_tokens) xs) r) (λ s p. Placed-cons r x s fits p) xs
                (fill-Placed (r - x.est_tokens) xs h),
          )
    | inr big ↦
        let same : fill r (x ∷ xs) ≡ fill r xs = rw (e, big) refl in
        subst (λ k. All (Placed k r) (x ∷ xs)) (sym same) (inr (ground arith), fill-Placed r xs h)
  ]
]

All-reverse_aux {κ} :
    {A : Type 0} (P : A → Type κ) (xs ys : List A) → All P (reverse_aux xs ys) → All P xs × All P ys
All-reverse_aux P [] ys h = (tt, h)
All-reverse_aux P (x ∷ xs) ys h =
    let (left, right) = All-reverse_aux P xs (x ∷ ys) h in ((right.0, left), right.1)

All-into-reverse_aux {κ} :
    {A : Type 0} (P : A → Type κ) (xs ys : List A) → All P xs → All P ys → All P (reverse_aux xs ys)
All-into-reverse_aux P [] ys h k = k
All-into-reverse_aux P (x ∷ xs) ys h k = All-into-reverse_aux P xs (x ∷ ys) h.1 (h.0, k)

-- Under a budget that holds the protected segments, `assemble` returns the messages of all of them and
-- of some droppable ones, sorted by where `segments` first has an equal one. Together they fit, and a
-- droppable segment that is left out would not fit besides them. Segments cost a token at least.
pub assemble-Placed :
    (segments : List ContextSegment) (token_budget : ℕ)
    → 1 ≤ token_budget
    → total (protected_of segments) ≤ token_budget
    → All (λ s. 1 ≤ s.est_tokens) (droppable_of segments)
    → (kept : List ContextSegment) × (assemble segments token_budget
        ≡ ok (
            map
              (λ s. s.message)
              (sort_by (precedes segments) (protected_of segments ++ reverse kept))))
      × Sublistᴰ kept (reverse (droppable_of segments))
      × (total (protected_of segments) + total kept ≤ token_budget)
      × All
          (λ s.
            Memᴰ s kept
            ⊎ (token_budget < total (protected_of segments) + total kept + s.est_tokens))
          (droppable_of segments)
unfolding assemble chosen
assemble-Placed segments token_budget h le cost =
    let newest = reverse (droppable_of segments) in
    let room = token_budget - total (protected_of segments) in
    let left = fill-le room newest in
    let placed =
      (All-reverse_aux (Placed (fill room newest) room) (droppable_of segments) []
        (fill-Placed room newest (All-into-reverse_aux _ (droppable_of segments) [] cost tt))).0 in
    (
      fill room newest,
      ground arith,
      fill-Sublist room newest,
      omega arith,
      All-map (Placed (fill room newest) room) _
          (λ s p. elim p [ inl m ↦ inl m | inr far ↦ inr (omega arith) ]) (droppable_of segments)
          placed,
    )

is_same_role_refl : (r : Role) → is_same_role r r ≡ true
unfolding is_same_role
is_same_role_refl Role.system = refl
is_same_role_refl Role.user = refl
is_same_role_refl Role.assistant = refl
is_same_role_refl Role.tool = refl

same_flag_refl : (p : Bool) → same_flag p p ≡ true
same_flag_refl true = refl
same_flag_refl false = refl

is_same_refl : (a : ContextSegment) → is_same a a ≡ true
unfolding is_same
is_same_refl a = ground (
  arith,
  is_same_role_refl a.message.role,
  same_flag_refl a.protected,
  str_eq_iff a.message.content a.message.content,
)

fill_all :
    (r : ℕ) (xs : List ContextSegment)
    → All (λ s. 1 ≤ s.est_tokens) xs
    → total xs ≤ r
    → fill r xs ≡ xs
unfolding fill total
fill_all r [] h le = refl
fill_all r (x ∷ xs) (pos, h) le = ground (arith, fill_all (r - x.est_tokens) xs)

sort_by-three :
    (le : ContextSegment → ContextSegment → Bool) (x y : ContextSegment)
    → le x x ≡ true
    → le y x ≡ false
    → sort_by le (x ∷ y ∷ x ∷ []) ≡ x ∷ x ∷ y ∷ []
unfolding sort_by insert_by
sort_by-three le x y first later = rw (later, first) refl

total-reverse_aux : (xs ys : List ContextSegment) → total (reverse_aux xs ys) ≡ total xs + total ys
unfolding total
total-reverse_aux [] ys = omega arith
total-reverse_aux (x ∷ xs) ys = omega (arith, total-reverse_aux xs (x ∷ ys))

kept-all :
    (segments : List ContextSegment) (token_budget : ℕ)
    → All (λ s. 1 ≤ s.est_tokens) (droppable_of segments)
    → total (protected_of segments) + total (droppable_of segments) ≤ token_budget
    → kept_of segments token_budget ≡ reverse (droppable_of segments)
unfolding total
kept-all segments token_budget cost le =
    let same = total-reverse_aux (droppable_of segments) [] in
    fill_all (token_budget - total (protected_of segments)) (reverse (droppable_of segments))
      (All-into-reverse_aux _ (droppable_of segments) [] cost tt) (omega arith)

assemble-all :
    (segments : List ContextSegment) (token_budget : ℕ)
    → 1 ≤ token_budget
    → All (λ s. 1 ≤ s.est_tokens) (droppable_of segments)
    → total (protected_of segments) + total (droppable_of segments) ≤ token_budget
    → assemble segments token_budget
      ≡ ok (
          map
            (λ s. s.message)
            (sort_by (precedes segments) (protected_of segments ++ droppable_of segments)))
unfolding assemble chosen
assemble-all segments token_budget h cost le =
    let all = kept-all segments token_budget cost le in
    let back : reverse (reverse (droppable_of segments)) ≡ droppable_of segments =
      reverse-reverse (droppable_of segments) in
    ground (arith)

-- A segment of the history
abbrev pub history : Message → ℕ → ContextSegment
history message est_tokens = record {
  message = message;
  protected = false;
  est_tokens = est_tokens;
}

module _ (m n : Message) (c d : ℕ) where
  abbrev three : List ContextSegment
  three = history m c ∷ history n d ∷ history m c ∷ []

  index-three :
      is_same (history m c) (history n d) ≡ false
      → (index (history m c) three ≡ 0) × (index (history n d) three ≡ 1)
  unfolding index
  index-three other =
      (rw (is_same_refl (history m c)) refl, rw (other, is_same_refl (history n d)) refl)

  -- Messages of the history that all fit do not keep their order: of two equal ones around another,
  -- the second moves to the first.
  pub assemble-moved :
      (token_budget : ℕ)
      → 1 ≤ c
      → 1 ≤ d
      → c + (d + c) ≤ token_budget
      → is_same (history m c) (history n d) ≡ false
      → assemble (history m c ∷ history n d ∷ history m c ∷ []) token_budget ≡ ok (m ∷ m ∷ n ∷ [])
  unfolding total
  assemble-moved token_budget hc hd fits other =
      let (first, second) = index-three other in
      let sorted =
        sort_by-three (precedes three) (history m c) (history n d) (rw first refl)
          (rw (first, second) refl) in
      assemble-all three token_budget (omega arith) (hc, (hd, (hc, tt))) (omega arith)
      ∙ ap (λ xs. ok (map (λ s. s.message) xs)) sorted
