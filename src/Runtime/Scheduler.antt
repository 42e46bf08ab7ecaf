-- ===== src/Runtime/Scheduler.antt =====
-- src/xenopus/runtime/scheduler.py: schedule entries, when they are due, and the tick that fires
-- them into the task store. Times and durations are numbers of microseconds since the epoch (UTC);
-- an ISO time stamp and an "HH:MM" text are given as the numbers that they denote.
pub mod Entries
pub mod Due
pub mod Ticks
pub mod Clock
mod Tests
use xenopus.Prelude.{
  ℕ, zero, suc, ◌+◌, ◌-◌, ◌*◌, ◌/◌, ◌%◌, Bool, true, false, Option, none, some, List, [], ◌∷◌, ◌++◌,
  String, Result, ok, err, length, ltb, leb, ◌&&◌, if◌then◌else◌,
}
use xenopus.Prelude.Strip.{strip, is_blank}
use xenopus.Prelude.Text.{join, show}
use xenopus.Persistence.Tasks.{TaskRecord, TaskStore, TaskError, create}
use xenopus.Runtime.Scheduler.Entries.{
  once, ScheduleEntry, SchedulerError, already_registered, bad_time, task_error, next_due_time,
}

-- `_EntryState`
pub record EntryState : Type 0 where
  pub entry : ScheduleEntry
  pub executions : ℕ
  pub last_fired : Option ℕ

pub record FireResult : Type 0 where
  pub schedule_id : String
  pub task_id : String
  pub correlation_id : String

-- A SCHEDULE_FIRED event: its correlation id, and the entry's id and name.
abbrev pub FiredEvent : Type 0
FiredEvent = String × String × String

pub record Scheduler : Type 0 where
  pub store : TaskStore
  pub journal : Option (List FiredEvent)
  pub cooldown : ℕ
  pub max_per_tick : ℕ
  pub entries : List EntryState

abbrev pub cooling : Option ℕ → ℕ → ℕ → Bool
cooling none cooldown now = false
cooling (some t) cooldown now = ltb (now - t) cooldown

-- The three `continue` tests of the loop, for an entry that is due at `due`.
unfoldable pub is_fireable : EntryState → ℕ → ℕ → ℕ → Bool
is_fireable state due cooldown now =
    if state.entry.enabled
    then (if ltb now due
        then false
        else if cooling state.last_fired cooldown now
        then false
        else true)
    else false

abbrev exhausted : Option ℕ → ℕ → Bool
exhausted none n = false
exhausted (some m) n = leb m n

-- What the loop leaves of the entry that it fired.
unfoldable pub fired_state : EntryState → ℕ → EntryState
fired_state state now =
    let n = state.executions + 1 in
    record {
      entry = record state.entry {
        enabled = if exhausted state.entry.max_executions n then false else state.entry.enabled;
      };
      executions = n;
      last_fired = some now;
    }

unfoldable pub correlation_of : EntryState → String
unfolding join show
correlation_of state =
    join "sched-" (join state.entry.schedule_id (join "-" (show (state.executions + 1))))

-- self._store.create(f"scheduled: {entry.name}", correlation_id=correlation_id)
unfoldable pub enqueue :
    String → EntryState → ℕ → TaskStore → Result TaskError TaskRecord × TaskStore
unfolding join correlation_of
enqueue task_id state now store =
    create task_id (join "scheduled: " state.entry.name) (correlation_of state) none none 3 now
      store

abbrev pub add_event : FiredEvent → Option (List FiredEvent) → Option (List FiredEvent)
add_event e none = none
add_event e (some es) = some (es ++ e ∷ [])

-- The variables of the loop in `tick`.
pub record Loop : Type 0 where
  pub fired : List FireResult
  pub done : List EntryState
  pub store : TaskStore
  pub journal : Option (List FiredEvent)

abbrev pub keep : EntryState → Loop → Loop
keep state l = record l { done = l.done ++ state ∷ [] }

-- The rest of the body, once `create` has returned.
abbrev pub after_create :
    EntryState → ℕ → Loop → Result TaskError TaskRecord → TaskStore → Result SchedulerError Loop
after_create state now l (err e) store = err (task_error e)
after_create state now l (ok task) store = ok (record {
  fired =
      l.fired
      ++ record {
        schedule_id = state.entry.schedule_id;
        task_id = task.task_id;
        correlation_id = correlation_of state;
      }
        ∷ [];
  done = l.done ++ fired_state state now ∷ [];
  store = store;
  journal = add_event (correlation_of state, state.entry.schedule_id, state.entry.name) l.journal;
})

-- The body of the loop for one entry; `fresh n` is the uuid drawn for the n-th task of this tick.
unfoldable pub visit :
    (fresh : ℕ → String) (cooldown now : ℕ) → EntryState → Loop → Result SchedulerError Loop
unfolding is_fireable
visit fresh cooldown now state l =
    if state.entry.enabled
    then elim (next_due_time state.entry now) [
      | none ↦ err bad_time
      | some due ↦
          let (made, store) = enqueue (fresh (length l.fired)) state now l.store in
          if is_fireable state due cooldown now
          then after_create state now l made store
          else ok (keep state l)
    ]
    else ok (keep state l)

abbrev pub and_then {ℓ} :
    {A B : Type ℓ}
    → Result SchedulerError A
    → (A → Result SchedulerError B)
    → Result SchedulerError B
and_then (ok a) f = f a
and_then (err e) f = err e

-- The loop: `break` at the budget leaves the other entries as they are.
unfoldable pub visit_all :
    (fresh : ℕ → String) (cooldown max_per_tick now : ℕ)
    → List EntryState
    → Loop
    → Result SchedulerError Loop
visit_all fresh cooldown max_per_tick now [] l = ok l
visit_all fresh cooldown max_per_tick now (state ∷ states) l =
    elim (leb max_per_tick (length l.fired)) [
      | true ↦ ok (record l { done = l.done ++ state ∷ states })
      | false ↦
          and_then (visit fresh cooldown now state l)
            (visit_all fresh cooldown max_per_tick now states)
    ]

-- The maintenance jobs are callables of the host: `failures` are the names of those that raise.
abbrev pub journal_jobs : List String → Option (List FiredEvent) → Option (List FiredEvent)
journal_jobs [] journal = journal
journal_jobs (name ∷ names) journal = add_event ("sched-jobs", "", "") journal

unfoldable pub tick :
    (fresh : ℕ → String) (failures : List String) (now : ℕ)
    → Scheduler
    → Result SchedulerError (List FireResult × Scheduler)
unfolding visit_all
tick fresh failures now s =
    and_then
      (visit_all fresh s.cooldown s.max_per_tick now s.entries
        (record { fired = []; done = []; store = s.store; journal = s.journal }))
      λ l. ok (
        l.fired,
        record s { store = l.store; journal = journal_jobs failures l.journal; entries = l.done },
      )

abbrev registered : String → List EntryState → Bool
registered schedule_id [] = false
registered schedule_id (s ∷ ss) =
    if xenopus.Prelude.str_eq s.entry.schedule_id schedule_id
    then true
    else registered schedule_id ss

unfoldable pub add : ScheduleEntry → Scheduler → Result SchedulerError Scheduler
add entry s =
    if registered entry.schedule_id s.entries
    then err already_registered
    else ok (record s {
      entries = s.entries ++ record { entry = entry; executions = 0; last_fired = none } ∷ [];
    })
