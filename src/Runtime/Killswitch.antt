-- ===== src/Runtime/Killswitch.antt =====
-- src/xenopus/runtime/killswitch.py and src/xenopus/runtime/recovery.py: the callers of the task
-- store's two sweeps. The correlation id that `new_correlation_id` draws is an argument.
pub mod Triggers
mod Tests
use xenopus.Prelude.{
  ℕ, Bool, not, Option, none, some, List, [], ◌∷◌, ◌++◌, map, String, Result, ok, err, is_empty,
  if◌then◌else◌, str_eq,
}
use xenopus.Prelude.Strip.{is_blank}
use xenopus.Persistence.Tasks.{
  TaskRecord, TaskStore, TaskError, Event, killswitch_triggered, of_killswitch, emit_to, cancel_all,
  mark_interrupted,
}

pub record KillSwitchReport : Type 0 where
  pub correlation_id : String
  pub cancelled : List TaskRecord
  pub reason : String

-- The journal that a kill switch was given: none, that of its task store, as the command line, the
-- web server and the terminal interface have it, or another one.
pub data Journal : Type 0 where
  absent shared : Journal
  other : List Event → Journal

pub record KillSwitch : Type 0 where
  pub store : TaskStore
  pub journal : Journal

-- `empty_correlation` is the ValueError of `Event`.
pub data KillSwitchError : Type 0 where
  sweep_failed : TaskError → KillSwitchError
  empty_correlation : KillSwitchError

abbrev pub Answer : Type 0
Answer = Result KillSwitchError KillSwitchReport × KillSwitch

-- The event KILLSWITCH_TRIGGERED
abbrev pub audit : String → String → List TaskRecord → Event
audit correlation_id reason cancelled = record {
  type = killswitch_triggered;
  correlation_id = correlation_id;
  payload = of_killswitch reason (map (λ r. r.task_id) cancelled);
}

-- What is left once the event was written to the journal that the kill switch shares
abbrev pub shared_write : KillSwitchReport → Result TaskError (Unit {0}) × TaskStore → Answer
shared_write report (ok _, store) = (ok report, record { store = store; journal = shared })
shared_write report (err e, store) =
    (err empty_correlation, record { store = store; journal = shared })

-- `trigger` behind the sweep
abbrev pub report_with : KillSwitchReport → Event → Journal → TaskStore → Answer
unfolding emit_to
report_with report event absent store = (ok report, record { store = store; journal = absent })
report_with report event shared store = shared_write report (emit_to store.journal event store)
report_with report event (other events) store =
    if is_blank event.correlation_id
    then (err empty_correlation, record { store = store; journal = other events })
    else (ok report, record { store = store; journal = other (events ++ event ∷ []) })

abbrev pub after_sweep :
    String → String → Journal → Result TaskError (List TaskRecord) → TaskStore → Answer
unfolding report_with
after_sweep correlation_id reason journal (err e) store =
    (err (sweep_failed e), record { store = store; journal = journal })
after_sweep correlation_id reason journal (ok cancelled) store =
    report_with (record { correlation_id = correlation_id; cancelled = cancelled; reason = reason })
      (audit correlation_id reason cancelled) journal store

unfoldable pub trigger : String → ℕ → String → KillSwitch → Answer
unfolding after_sweep
trigger correlation_id now reason switch =
    let (cancelled, store) = cancel_all now switch.store in
    after_sweep correlation_id reason switch.journal cancelled store

pub record RecoveryReport : Type 0 where
  pub interrupted : List TaskRecord

unfoldable pub has_work : RecoveryReport → Bool
has_work report = not (is_empty report.interrupted)

-- `CrashRecovery.run`
abbrev pub recovered : Result TaskError (List TaskRecord) → Result TaskError RecoveryReport
recovered (err e) = err e
recovered (ok interrupted) = ok record { interrupted = interrupted }

unfoldable pub recover : ℕ → TaskStore → Result TaskError RecoveryReport × TaskStore
recover now store =
    let (interrupted, store') = mark_interrupted now store in (recovered interrupted, store')
