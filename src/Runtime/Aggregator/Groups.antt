-- ===== src/Runtime/Aggregator/Groups.antt =====
-- The groups of claims with one key.
use mathlib.Core.List.{Memᴰ}
use xenopus.Prelude.{
  ◌≡◌, ◌≢◌, ◌⊎◌, refl, sym, inl, inr, List, [], ◌∷◌, ◌++◌, String, str_eq, str_eq_iff, All,
  All-append, Bool-cases,
}
use xenopus.Prelude.Dict.{Dict, lookup, insert, keys, lookup-insert, text_ne}
use xenopus.Runtime.Aggregator.{Claim, group_claims, or_empty}

abbrev pub group_of : String → Dict (List Claim) → List Claim
group_of key by_key = or_empty (lookup key by_key)

Memᴰ-append_left : {A : Type 0} {a : A} (xs ys : List A) → Memᴰ a xs → Memᴰ a (xs ++ ys)
Memᴰ-append_left [] ys m = elim m [ ]
Memᴰ-append_left (x ∷ xs) ys (Memᴰ.head e) = Memᴰ.head e
Memᴰ-append_left (x ∷ xs) ys (Memᴰ.tail m) = Memᴰ.tail (Memᴰ-append_left xs ys m)

Memᴰ-append_last : {A : Type 0} (a : A) (xs : List A) → Memᴰ a (xs ++ a ∷ [])
Memᴰ-append_last a [] = Memᴰ.head refl
Memᴰ-append_last a (x ∷ xs) = Memᴰ.tail (Memᴰ-append_last a xs)

-- The group under a key once a claim is added to its group
group_of-insert :
    (key : String) (c : Claim) (d : Dict (List Claim))
    → ((c.key ≡ key)
        × (group_of key (insert c.key (group_of c.key d ++ c ∷ []) d) ≡ group_of key d ++ c ∷ []))
      ⊎ ((c.key ≢ key)
          × (group_of key (insert c.key (group_of c.key d ++ c ∷ []) d) ≡ group_of key d))
group_of-insert key c d =
    let law = lookup-insert c.key key (group_of c.key d ++ c ∷ []) d in
    elim (Bool-cases (str_eq c.key key)) [
      | inl e ↦ let same = (str_eq_iff c.key key).0 e in inl (same, rw (law, e, same) refl)
      | inr e ↦ inr (text_ne c.key key e, rw (law, e) refl)
    ]

pub group_claims-keeps :
    (key : String) (c : Claim) (cs : List Claim) (d : Dict (List Claim))
    → Memᴰ c (group_of key d)
    → Memᴰ c (group_of key (group_claims cs d))
unfolding group_claims
group_claims-keeps key c [] d m = m
group_claims-keeps key c (x ∷ cs) d m =
    group_claims-keeps key c cs (insert x.key (group_of x.key d ++ x ∷ []) d)
      (elim (group_of-insert key x d) [
        | inl (_, e) ↦ rw e (Memᴰ-append_left (group_of key d) (x ∷ []) m)
        | inr (_, e) ↦ rw e m
      ])

-- Every claim is in the group of its key.
pub group_claims-covers :
    (c : Claim) (cs : List Claim) (d : Dict (List Claim))
    → Memᴰ c cs
    → Memᴰ c (group_of c.key (group_claims cs d))
unfolding group_claims
group_claims-covers c [] d m = elim m [ ]
group_claims-covers c (x ∷ cs) d (Memᴰ.head same) =
    group_claims-keeps c.key c cs (insert x.key (group_of x.key d ++ x ∷ []) d)
      (elim (group_of-insert c.key x d) [
        | inl (_, e) ↦ rw (e, ← same) (Memᴰ-append_last c (group_of c.key d))
        | inr (other, e) ↦ absurd (other (rw same refl))
      ])
group_claims-covers c (x ∷ cs) d (Memᴰ.tail m) =
    group_claims-covers c cs (insert x.key (group_of x.key d ++ x ∷ []) d) m

-- The claims of each group have its key, and what all claims have.
abbrev pub Sound : (Claim → Type 0) → Dict (List Claim) → Type 0
Sound P d = (key : String) → All (λ c. (c.key ≡ key) × P c) (group_of key d)

pub group_claims-Sound :
    (P : Claim → Type 0) (cs : List Claim) (d : Dict (List Claim))
    → All P cs
    → Sound P d
    → Sound P (group_claims cs d)
unfolding group_claims
group_claims-Sound P [] d all s = s
group_claims-Sound P (x ∷ cs) d (p, all) s =
    group_claims-Sound P cs (insert x.key (group_of x.key d ++ x ∷ []) d) all (λ key.
      elim (group_of-insert key x d) [
        | inl (same, e) ↦ rw e (
            All-append (λ c. (c.key ≡ key) × P c) (group_of key d) (x ∷ []) (s key) ((same, p), tt))
        | inr (_, e) ↦ rw e (s key)
      ])

-- A group with a claim has its key in the dict.
pub Memᴰ-keys :
    (key : String) (c : Claim) (d : Dict (List Claim)) → Memᴰ c (group_of key d) → Memᴰ key (keys d)
unfolding lookup
Memᴰ-keys key c [] m = elim m [ ]
Memᴰ-keys key c ((k, v) ∷ d) m = elim (Bool-cases (str_eq k key)) [
  | inl e ↦ Memᴰ.head (sym ((str_eq_iff k key).0 e))
  | inr e ↦ Memᴰ.tail (Memᴰ-keys key c d (rw e at m))
]
