-- ===== src/Runtime/Killswitch/Triggers.antt =====
-- What a trigger of the kill switch leaves.
use xenopus.Prelude.{
  ℕ, ◌≤◌, ◌≡◌, refl, inr, false, some, List, [], ◌∷◌, ◌++◌, map, String, ok, length, All, All-map,
}
use xenopus.Prelude.Strip.{is_blank}
use xenopus.Persistence.Tasks.{Event, default_limit}
use xenopus.Persistence.Tasks.Table.{Distinct}
use xenopus.Persistence.Tasks.Transitions.{CanEmit}
use xenopus.Persistence.Tasks.Cancels.{NoneLive, cancellation, cancel_all-clears}
use xenopus.Runtime.Killswitch.{KillSwitch, KillSwitchReport, shared, trigger, audit}

-- With at most a hundred tasks in the store, no two of one id, and with the store's own journal, which
-- accepts every correlation id that is not empty, `trigger` returns and leaves no live task. The
-- journal has one TASK_CANCELLED more for each task of the report, in its order, and then
-- KILLSWITCH_TRIGGERED with the correlation id and the reason and with the ids of these tasks.
pub trigger-NoneLive :
    (correlation_id : String) (now : ℕ) (reason : String) (switch : KillSwitch)
    (events : List Event)
    → length switch.store.rows ≤ default_limit
    → Distinct switch.store.rows
    → All (λ q. is_blank q.correlation_id ≡ false) switch.store.rows
    → switch.journal ≡ shared
    → switch.store.journal ≡ some events
    → is_blank correlation_id ≡ false
    → (report : KillSwitchReport) × ((trigger correlation_id now reason switch).0 ≡ ok report)
      × NoneLive (trigger correlation_id now reason switch).1.store
      × ((trigger correlation_id now reason switch).1.store.journal
          ≡ some (
              (events ++ map cancellation report.cancelled)
              ++ audit correlation_id reason report.cancelled ∷ []))
unfolding trigger
trigger-NoneLive correlation_id now reason switch events few d can wired journal named =
    let (cancelled, swept, clear, written) = cancel_all-clears now switch.store few d (
      All-map (λ q. is_blank q.correlation_id ≡ false) (λ q. CanEmit switch.store q.correlation_id)
        (λ q h. inr h) switch.store.rows can) in
    let full = written events journal in
    (
      record { correlation_id = correlation_id; cancelled = cancelled; reason = reason },
      rw (swept, wired, full, named) refl,
      rw (swept, wired, full, named) clear,
      rw (swept, wired, full, named) refl,
    )
