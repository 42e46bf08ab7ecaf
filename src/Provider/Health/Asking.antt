-- ===== src/Provider/Health/Asking.antt =====
-- Asking whether a provider is available may restore it, and changes no answer.
use xenopus.Prelude.{
  ℕ, ◌≡◌, ◌⊎◌, refl, sym, true, some, String, leb, str_eq, str_eq_iff, Bool-cases, Option-cases,
  inl, inr, ap, ◌∙◌,
}
use xenopus.Provider.Health.{Tracker, healthy_snapshot, snapshot, is_available, put, deadline}
use xenopus.Provider.Health.Breaker.{
  snapshot-put_ne, snapshot-put_self, open_at, is_available-open_at,
}

restored :
    (p q : String) (now until : ℕ) (t : Tracker)
    → deadline (snapshot p t) ≡ some until
    → leb until now ≡ true
    → (is_available q now (put p (healthy_snapshot p) t).1).0 ≡ (is_available q now t).0
unfolding healthy_snapshot
restored p q now until t h late = elim (Bool-cases (str_eq p q)) [
  | inl e ↦ rw (← (str_eq_iff p q).0 e) (
      is_available-open_at p now (put p (healthy_snapshot p) t).1
      ∙ ap (λ s. open_at now (deadline s)) (snapshot-put_self p (healthy_snapshot p) t)
      ∙ sym late
      ∙ sym (ap (open_at now) h)
      ∙ sym (is_available-open_at p now t))
  | inr e ↦
      is_available-open_at q now (put p (healthy_snapshot p) t).1
      ∙ ap (λ s. open_at now (deadline s))
          (snapshot-put_ne p q (healthy_snapshot p) t (λ same. cc ((str_eq_iff p q).1 same, e)))
      ∙ sym (is_available-open_at q now t)
]

is_available-tracker :
    (p : String) (now : ℕ) (t : Tracker)
    → ((is_available p now t).1 ≡ t)
      ⊎ ((until : ℕ) × (deadline (snapshot p t) ≡ some until)
          × (leb until now ≡ true)
          × ((is_available p now t).1 ≡ (put p (healthy_snapshot p) t).1))
unfolding is_available
is_available-tracker p now t = elim (Option-cases (deadline (snapshot p t))) [
  | inl e ↦ inl (rw (e, is_available) refl)
  | inr (until, e) ↦ elim (Bool-cases (leb until now)) [
    | inl late ↦ inr (until, e, late, rw (e, late, is_available) refl)
    | inr early ↦ inl (rw (e, early, is_available) refl)
  ]
]

-- Asking about one provider leaves every answer about every provider, at this time, as it was.
pub is_available-stable :
    (p q : String) (now : ℕ) (t : Tracker)
    → (is_available q now (is_available p now t).1).0 ≡ (is_available q now t).0
is_available-stable p q now t = elim (is_available-tracker p now t) [
  | inl same ↦ ap (λ u. (is_available q now u).0) same
  | inr (until, h, late, moved) ↦
      ap (λ u. (is_available q now u).0) moved ∙ restored p q now until t h late
]
