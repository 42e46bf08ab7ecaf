-- ===== src/Provider/Health/Breaker.antt =====
-- When a provider is available: after failures, after a success, and once its cooldown has passed.
use xenopus.Prelude.{
  ℕ, ◌+◌, ◌<◌, ◌≡◌, ◌≢◌, refl, Bool, true, not, ◌&&◌, Option, none, some, List, [], ◌∷◌, String,
  arith, leb, ltb, length, str_eq, str_eq_iff, if◌then◌else◌, Bool-cases, Option-cases, ap, inl,
  inr, ◌∙◌,
}
use xenopus.Prelude.Dict.{lookup-insert}
use xenopus.Provider.Health.{
  HealthSnapshot, Tracker, ProviderError, rate_limit, transient, healthy_snapshot, snapshot,
  record_failure, record_success, is_available, failed_snapshot, put, or_default, deadline,
  cooldown, unavailable, rate_limited,
}

snapshot-put :
    (p q : String) (s : HealthSnapshot) (t : Tracker)
    → snapshot q (put p s t).1 ≡ (if str_eq p q then s else snapshot q t)
unfolding put snapshot
snapshot-put p q s t = ground (arith, lookup-insert p q s t.states)

pub snapshot-put_ne :
    (p q : String) (s : HealthSnapshot) (t : Tracker)
    → p ≢ q
    → snapshot q (put p s t).1 ≡ snapshot q t
snapshot-put_ne p q s t h = ground (arith, snapshot-put p q s t, str_eq_iff p q)

pub snapshot-put_self :
    (p : String) (s : HealthSnapshot) (t : Tracker) → snapshot p (put p s t).1 ≡ s
snapshot-put_self p s t = ground (arith, snapshot-put p p s t, str_eq_iff p p)

-- Transient failures at these times, the earliest first
unfoldable pub failures_at : String → List ℕ → Tracker → Tracker
failures_at p [] t = t
failures_at p (n ∷ ns) t = failures_at p ns (record_failure p transient n t).1

-- What a failure, whatever it is, leaves alone: the snapshots of the other providers.
pub record_failure-other :
    (p q : String) (e : ProviderError) (now : ℕ) (t : Tracker)
    → p ≢ q
    → snapshot q (record_failure p e now t).1 ≡ snapshot q t
unfolding record_failure
record_failure-other p q (rate_limit r) now t other = snapshot-put_ne p q _ t other
record_failure-other p q ProviderError.permanent now t other = refl
record_failure-other p q transient now t other =
    elim (Bool-cases (leb t.threshold ((snapshot p t).consecutive_failures + 1))) [
      | inl e ↦ rw e (snapshot-put_ne p q _ t other)
      | inr e ↦ rw e (snapshot-put_ne p q _ t other)
    ]

-- The state that a transient failure leaves, and the settings, which it does not touch
record_failure-transient :
    (p : String) (now : ℕ) (t : Tracker)
    → (snapshot p (record_failure p transient now t).1 ≡ (
        if leb t.threshold ((snapshot p t).consecutive_failures + 1)
        then failed_snapshot p cooldown
            (some (now + t.unavailable_cooldown))
            ((snapshot p t).consecutive_failures + 1)
        else failed_snapshot p unavailable none ((snapshot p t).consecutive_failures + 1)))
      × ((record_failure p transient now t).1.threshold ≡ t.threshold)
      × ((record_failure p transient now t).1.unavailable_cooldown ≡ t.unavailable_cooldown)
unfolding record_failure put
record_failure-transient p now t =
    elim (Bool-cases (leb t.threshold ((snapshot p t).consecutive_failures + 1))) [
      | inl e ↦ rw e (snapshot-put_self p _ t, refl, refl)
      | inr e ↦ rw e (snapshot-put_self p _ t, refl, refl)
    ]

record_failure-count :
    (p : String) (now : ℕ) (t : Tracker)
    → (snapshot p (record_failure p transient now t).1).consecutive_failures
      ≡ (snapshot p t).consecutive_failures + 1
unfolding failed_snapshot
record_failure-count p now t =
    elim (Bool-cases (leb t.threshold ((snapshot p t).consecutive_failures + 1))) [
      | inl e ↦ rw ((record_failure-transient p now t).0, e) refl
      | inr e ↦ rw ((record_failure-transient p now t).0, e) refl
    ]

failures_at-count :
    (p : String) (ns : List ℕ) (t : Tracker)
    → ((snapshot p (failures_at p ns t)).consecutive_failures
        ≡ (snapshot p t).consecutive_failures + length ns)
      × ((failures_at p ns t).threshold ≡ t.threshold)
      × ((failures_at p ns t).unavailable_cooldown ≡ t.unavailable_cooldown)
unfolding failures_at
failures_at-count p [] t = (omega arith, refl, refl)
failures_at-count p (n ∷ ns) t =
    let t' : Tracker = (record_failure p transient n t).1 in
    let (count, same, window) = failures_at-count p ns t' in
    let (_, same', window') = record_failure-transient p n t in
    (omega (arith, count, record_failure-count p n t), same ∙ same', window ∙ window')

abbrev pub open_at : ℕ → Option ℕ → Bool
open_at now none = true
open_at now (some until) = leb until now

pub is_available-open_at :
    (p : String) (now : ℕ) (t : Tracker)
    → (is_available p now t).0 ≡ open_at now (deadline (snapshot p t))
unfolding is_available
is_available-open_at p now t = elim (Option-cases (deadline (snapshot p t))) [
  | inl e ↦ rw (e, is_available) refl
  | inr (until, e) ↦
      rw (e, is_available)
        (elim (Bool-cases (leb until now)) [ inl f ↦ rw f refl | inr f ↦ rw f refl ])
]

pub transient-open :
    (p : String) (last now : ℕ) (t : Tracker)
    → (is_available p now (record_failure p transient last t).1).0
      ≡ not (
          leb t.threshold ((snapshot p t).consecutive_failures + 1)
          && ltb now (last + t.unavailable_cooldown))
unfolding failed_snapshot
transient-open p last now t =
    rw
      (
        is_available-open_at p now (record_failure p transient last t).1,
        (record_failure-transient p last t).0,
      )
      (elim (Bool-cases (leb t.threshold ((snapshot p t).consecutive_failures + 1))) [
        | inl e ↦ rw e (ground arith)
        | inr e ↦ rw e refl
      ])

-- After transient failures at the times `ns` and then one at `last`, the provider is unavailable
-- exactly while the failures in a row, those before included, have reached the threshold and the
-- cooldown that began at `last` has not passed.
pub failures-open :
    (p : String) (ns : List ℕ) (last now : ℕ) (t : Tracker)
    → (is_available p now (record_failure p transient last (failures_at p ns t)).1).0
      ≡ not (
          leb t.threshold ((snapshot p t).consecutive_failures + length ns + 1)
          && ltb now (last + t.unavailable_cooldown))
unfolding is_available failed_snapshot
failures-open p ns last now t =
    let (count, same, window) = failures_at-count p ns t in
    rw (transient-open p last now (failures_at p ns t), count, same, window) refl

-- A success forgives what was before: after it, fewer failures than the threshold leave the provider
-- available at every time.
pub success-forgives :
    (p : String) (ns : List ℕ) (last now : ℕ) (t : Tracker)
    → length ns + 1 < t.threshold
    → (is_available p now
        (record_failure p transient last (failures_at p ns (record_success p t).1)).1).0
      ≡ true
unfolding record_success put healthy_snapshot
success-forgives p ns last now t few =
    let zero_count =
      ap (λ s. s.consecutive_failures) (snapshot-put_self p (healthy_snapshot p) t) in
    rw (failures-open p ns last now (record_success p t).1, zero_count) (ground arith)

-- Once the deadline of a cooldown or of a rate limit has come, the provider is available and its
-- count starts again from 0; before, it is not, and nothing changes.
pub deadline-heals :
    (p : String) (now until : ℕ) (t : Tracker)
    → deadline (snapshot p t) ≡ some until
    → ((is_available p now t).0 ≡ leb until now)
      × (snapshot p (is_available p now t).1
          ≡ (if leb until now then healthy_snapshot p else snapshot p t))
unfolding is_available
deadline-heals p now until t h =
    rw (h, is_available)
      (elim (Bool-cases (leb until now)) [
        | inl e ↦ rw e (refl, snapshot-put_self p _ t)
        | inr e ↦ rw e (refl, refl)
      ])

-- A rate limit is forgotten: when a transient failure comes after it and the count is still below
-- the threshold, the provider is available at every time, also before the deadline that the rate
-- limit announced.
pub rate_limit-forgotten :
    (p : String) (r : Option ℕ) (first last now : ℕ) (t : Tracker)
    → (snapshot p t).consecutive_failures + 2 < t.threshold
    → (is_available p now
        (record_failure p transient last (record_failure p (rate_limit r) first t).1).1).0
      ≡ true
unfolding record_failure failed_snapshot put
rate_limit-forgotten p r first last now t few =
    let counted =
      ap (λ s. s.consecutive_failures)
        (snapshot-put_self p
          (failed_snapshot p rate_limited (some (first + or_default r t.rate_limit_cooldown))
            ((snapshot p t).consecutive_failures + 1))
          t) in
    rw (transient-open p last now (record_failure p (rate_limit r) first t).1, counted)
      (ground arith)
