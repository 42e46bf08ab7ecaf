-- ===== src/Runtime/AgentPool/Watchdog.antt =====
-- What the watchdog reports.
use xenopus.Prelude.{
  ℕ, ◌+◌, ◌-◌, ◌≤◌, ◌<◌, ◌≡◌, ◌≢◌, ◌⊎◌, refl, Option, none, some, List, [], ◌∷◌, String, str_eq_iff,
  arith, ltb, ap, ◌∙◌, Bool-cases, Option-cases, inl, inr,
}
use xenopus.Prelude.Dict.{Dict, lookup, lookup-insert}
use xenopus.Runtime.AgentPool.{
  AgentHealth, healthy, stuck, recovering, RunEntry, AgentPool, beat, heartbeat, mark_stuck,
  mark_all, detect_stuck, health_of,
}

abbrev marked : ℕ → ℕ → Option RunEntry → Option RunEntry
marked threshold now none = none
marked threshold now (some e) = some (mark_stuck threshold now e)

pub lookup-mark_all :
    (k : String) (threshold now : ℕ) (m : Dict RunEntry)
    → lookup k (mark_all threshold now m) ≡ marked threshold now (lookup k m)
unfolding lookup mark_all
lookup-mark_all k threshold now [] = refl
lookup-mark_all k threshold now ((j, e) ∷ m) = ground (arith, lookup-mark_all k threshold now m)

health_cases : (h : AgentHealth) → (h ≡ healthy) ⊎ (h ≢ healthy)
health_cases healthy = inl refl
health_cases _ = inr (λ e. cc)

mark_stuck_cases :
    (threshold now : ℕ) (e : RunEntry)
    → (((e.health ≡ healthy) × (e.last_heartbeat_dt + threshold < now))
        × (mark_stuck threshold now e ≡ record e { health = stuck }))
      ⊎ (((e.health ≢ healthy) ⊎ (now ≤ e.last_heartbeat_dt + threshold))
          × (mark_stuck threshold now e ≡ e))
unfolding mark_stuck
mark_stuck_cases threshold now e = elim (health_cases e.health) [
  | inl well ↦ elim (Bool-cases (ltb threshold (now - e.last_heartbeat_dt))) [
    | inl late ↦ inl ((well, ground arith), ground arith)
    | inr timely ↦ inr (inr (ground arith), ground arith)
  ]
  | inr ill ↦ inr (inl ill, ground arith)
]

-- The watchdog turns a live run to STUCK exactly when it is HEALTHY and its last heartbeat lies
-- further back than the timeout; it changes no other run, and it keeps every run in its slot.
pub detect_stuck_lem :
    (k : String) (now : ℕ) (p : AgentPool) (e : RunEntry)
    → lookup k p.live ≡ some e
    → (((e.health ≡ healthy) × (e.last_heartbeat_dt + p.limits.heartbeat_timeout < now))
        × (lookup k (detect_stuck now p).1.live ≡ some (record e { health = stuck })))
      ⊎ (((e.health ≢ healthy) ⊎ (now ≤ e.last_heartbeat_dt + p.limits.heartbeat_timeout))
          × (lookup k (detect_stuck now p).1.live ≡ some e))
unfolding detect_stuck
detect_stuck_lem k now p e found =
    let threshold = p.limits.heartbeat_timeout in
    let at : lookup k (mark_all threshold now p.live) ≡ some (mark_stuck threshold now e) =
      lookup-mark_all k threshold now p.live ∙ ap (marked threshold now) found in
    elim (mark_stuck_cases threshold now e) [
      | inl (why, e') ↦ inl (why, at ∙ ap some e')
      | inr (why, e') ↦ inr (why, at ∙ ap some e')
    ]

-- A call of the watchdog's methods, at the clock's time.
pub data Beat : Type 0 where
  alive : String → ℕ → Beat
  watch : ℕ → Beat

unfoldable pub perform : Beat → AgentPool → AgentPool
perform (alive k now) p = heartbeat k now p
perform (watch now) p = (detect_stuck now p).1

unfoldable pub perform_all : List Beat → AgentPool → AgentPool
perform_all [] p = p
perform_all (b ∷ bs) p = perform_all bs (perform b p)

recovering-perform :
    (k : String) (b : Beat) (p : AgentPool)
    → health_of k p ≡ some recovering
    → health_of k (perform b p) ≡ some recovering
unfolding perform health_of heartbeat detect_stuck mark_stuck
recovering-perform k (alive j now) p h = elim (Option-cases (lookup j p.live)) [
  | inl absent ↦ ground arith
  | inr (e, there) ↦ ground (arith, lookup-insert j k (beat now e) p.live, str_eq_iff j k)
]
recovering-perform k (watch now) p h =
    ground (arith, lookup-mark_all k p.limits.heartbeat_timeout now p.live)

-- A run that was STUCK and came back is RECOVERING from then on: no heartbeat makes it HEALTHY
-- again, and the watchdog never reports it again, however long it is silent.
pub recovering-stays :
    (k : String) (bs : List Beat) (p : AgentPool)
    → health_of k p ≡ some recovering
    → health_of k (perform_all bs p) ≡ some recovering
unfolding perform_all
recovering-stays k [] p h = h
recovering-stays k (b ∷ bs) p h = recovering-stays k bs (perform b p) (recovering-perform k b p h)
