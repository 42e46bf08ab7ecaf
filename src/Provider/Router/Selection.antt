-- ===== src/Provider/Router/Selection.antt =====
-- What `select` returns.
use mathlib.Core.List.{Perm}
use xenopus.Prelude.{
  ℕ, ◌+◌, ◌<◌, ◌≤◌, ◌≡◌, ◌≢◌, ◌⊎◌, refl, ap, ◌∙◌, subst, Bool, true, false, not, ◌&&◌, List, [],
  ◌∷◌, String, ok, err, arith, Bool-cases, inl, inr, filter, is_empty, All, if◌then◌else◌,
}
use xenopus.Prelude.Sort.{sort_by, Ascends, sort_by-perm, sort_by-Ascends, All-sort_by}
use xenopus.Provider.Health.{Tracker, transient, snapshot, is_available, record_failure}
use xenopus.Provider.Health.Asking.{is_available-stable}
use xenopus.Provider.Health.Breaker.{transient-open}
use xenopus.Provider.Registry.{ModelCapability, ProviderRegistry, capabilities}
use xenopus.Provider.Router.{
  RoutingPolicy, no_candidate, precedes, is_excluded, candidates_of, select,
}
use xenopus.Provider.Router.Order.{precedes-IsTotal}

-- What the caller may use: not excluded, and its provider available at this time
abbrev pub is_usable : List String → ℕ → Tracker → ModelCapability → Bool
is_usable exclude now t c = not (is_excluded exclude c) && (is_available c.provider now t).0

filter-ext :
    {A : Type 0} (p q : A → Bool) (xs : List A) → ((x : A) → p x ≡ q x) → filter p xs ≡ filter q xs
filter-ext p q [] h = refl
filter-ext p q (x ∷ xs) h = rw (h x, filter-ext p q xs h)

candidates_of-filter :
    (exclude : List String) (now : ℕ) (cs : List ModelCapability) (t : Tracker)
    → (candidates_of exclude now cs t).0 ≡ filter (is_usable exclude now t) cs
unfolding candidates_of
candidates_of-filter exclude now [] t = refl
candidates_of-filter exclude now (c ∷ cs) t = elim (Bool-cases (is_excluded exclude c)) [
  | inl e ↦ rw (e, candidates_of) (candidates_of-filter exclude now cs t)
  | inr e ↦
      let t' : Tracker = (is_available c.provider now t).1 in
      let rest =
        candidates_of-filter exclude now cs t'
        ∙ filter-ext (is_usable exclude now t') (is_usable exclude now t) cs (λ d.
          ap (λ b. not (is_excluded exclude d) && b)
            (is_available-stable c.provider d.provider now t)) in
      rw (e, candidates_of, rest) refl
]

-- `select` refuses when no registered capability is usable, that is, not excluded and with a provider
-- that is available now. Otherwise it returns the usable ones, each as often as it is registered,
-- and every one before those that the policy ranks behind it.
pub select_lem :
    {P : Type 0} (policy : RoutingPolicy) (exclude : List String) (now : ℕ)
    (registry : ProviderRegistry P) (t : Tracker)
    → ((filter (is_usable exclude now t) (capabilities registry) ≡ [])
        × ((select policy exclude now registry t).0 ≡ err no_candidate))
      ⊎ ((chain : List ModelCapability) × ((select policy exclude now registry t).0 ≡ ok chain)
          × Perm chain (filter (is_usable exclude now t) (capabilities registry))
          × Ascends (precedes policy) chain)
unfolding select
select_lem policy exclude now registry t =
    rw (candidates_of-filter exclude now (capabilities registry) t)
      (go (filter (is_usable exclude now t) (capabilities registry)))
  where
    go :
        (cs : List ModelCapability)
        → ((cs ≡ [])
            × ((if is_empty cs then err no_candidate else ok (sort_by (precedes policy) cs))
                ≡ err no_candidate))
          ⊎ ((chain : List ModelCapability) × ((if is_empty cs
                  then err no_candidate
                  else ok (sort_by (precedes policy) cs))
                ≡ ok chain)
              × Perm chain cs
              × Ascends (precedes policy) chain)
    go [] = inl (refl, refl)
    go (c ∷ cs) = inr (
      sort_by (precedes policy) (c ∷ cs),
      refl,
      sort_by-perm (precedes policy) (c ∷ cs),
      sort_by-Ascends (precedes policy) (precedes-IsTotal policy) (c ∷ cs),
    )

All-filter :
    {A : Type 0} {κ : A → Type 0} (p : A → Bool) (xs : List A)
    → ((x : A) → p x ≡ true → κ x)
    → All κ (filter p xs)
All-filter p [] h = tt
All-filter {κ} p (x ∷ xs) h = elim (Bool-cases (p x)) [
  | inl e ↦ rw e (h x e, All-filter {κ = κ} p xs h)
  | inr e ↦ rw e (All-filter {κ = κ} p xs h)
]

select-chain :
    {P : Type 0} (policy : RoutingPolicy) (exclude : List String) (now : ℕ)
    (registry : ProviderRegistry P) (t : Tracker) {chain : List ModelCapability}
    → (select policy exclude now registry t).0 ≡ ok chain
    → sort_by (precedes policy) (filter (is_usable exclude now t) (capabilities registry)) ≡ chain
unfolding select
select-chain policy exclude now registry t h =
    go (filter (is_usable exclude now t) (capabilities registry))
      (rw (candidates_of-filter exclude now (capabilities registry) t) at h)
  where
    go :
        (cs : List ModelCapability) {chain : List ModelCapability}
        → (if is_empty cs then err no_candidate else ok (sort_by (precedes policy) cs)) ≡ ok chain
        → sort_by (precedes policy) cs ≡ chain
    go [] e = cc
    go (c ∷ cs) e = cc

open_closed :
    (p : String) (last now : ℕ) (t : Tracker)
    → t.threshold ≤ (snapshot p t).consecutive_failures + 1
    → now < last + t.unavailable_cooldown
    → (is_available p now (record_failure p transient last t).1).0 ≡ false
open_closed p last now t many early = ground (arith, transient-open p last now t)

-- A provider whose failures in a row have just reached the threshold is in no fallback chain until
-- its cooldown has passed.
pub select-avoids :
    {P : Type 0} (policy : RoutingPolicy) (exclude : List String) (last now : ℕ)
    (registry : ProviderRegistry P) (p : String) (t : Tracker) {chain : List ModelCapability}
    → t.threshold ≤ (snapshot p t).consecutive_failures + 1
    → now < last + t.unavailable_cooldown
    → (select policy exclude now registry (record_failure p transient last t).1).0 ≡ ok chain
    → All (λ c. c.provider ≢ p) chain
select-avoids policy exclude last now registry p t {chain} many early h =
    let t' : Tracker = (record_failure p transient last t).1 in
    subst (All (λ c. c.provider ≢ p)) (select-chain policy exclude now registry t' h) (
      All-sort_by (precedes policy) (λ c. c.provider ≢ p)
        (filter (is_usable exclude now t') (capabilities registry))
        (All-filter {κ = λ c. c.provider ≢ p} (is_usable exclude now t') (capabilities registry)
          (λ c usable same.
            ground (arith, rw same at usable, open_closed p last now t many early))))
