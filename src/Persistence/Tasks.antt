-- ===== src/Persistence/Tasks.antt =====
-- src/xenopus/persistence/tasks.py: the durable task store. The table is the list of its rows in the
-- order of their rowids; a time stamp is a number, and the clock's answer is the argument `now`.
-- The fresh id that `uuid4` gives is an argument of `create`.
pub mod Table
pub mod Transitions
pub mod Sweeps
pub mod Cancels
mod Tests
use mathlib.Core.Bool.{decide}
use xenopus.Prelude.{
  ℕ, ◌+◌, ◌-◌, Bool, true, false, not, Option, none, some, List, [], ◌∷◌, ◌++◌, map, String, str_eq,
  Result, ok, err, any, take, ltb, leb, if◌then◌else◌,
}
use xenopus.Prelude.Strip.{strip, is_blank}

pub data TaskState : Type 0 where
  queued running waiting paused resumable completed failed cancelled : TaskState

pub TaskState-discrete : Discrete TaskState
TaskState-discrete = hlevel

-- `t in states`
unfoldable pub is_in : TaskState → List TaskState → Bool
unfolding TaskState-discrete decide
is_in t states = any (λ s. decide (TaskState-discrete s t)) states

-- LEGAL_TASK_TRANSITIONS
unfoldable pub legal_task_transitions : TaskState → List TaskState
legal_task_transitions queued = running ∷ cancelled ∷ failed ∷ []
legal_task_transitions running = paused ∷ waiting ∷ completed ∷ failed ∷ cancelled ∷ resumable ∷ []
legal_task_transitions waiting = running ∷ paused ∷ cancelled ∷ resumable ∷ []
legal_task_transitions paused = running ∷ resumable ∷ cancelled ∷ []
legal_task_transitions resumable = running ∷ cancelled ∷ failed ∷ []
legal_task_transitions completed = []
legal_task_transitions failed = queued ∷ []
legal_task_transitions cancelled = []

pub record TaskRecord : Type 0 where
  pub task_id : String
  pub title : String
  pub goal_ref : Option String
  pub plan_ref : Option String
  pub state : TaskState
  pub correlation_id : String
  pub attempt : ℕ
  pub max_attempts : ℕ
  pub created_at : ℕ
  pub updated_at : ℕ

-- max(0, self.max_attempts - self.attempt): `-` stops at 0
unfoldable pub retries_left : TaskRecord → ℕ
retries_left r = r.max_attempts - r.attempt

-- The members of `EventType` that this store and the kill switch write to its journal.
pub data EventType : Type 0 where
  task_created task_started task_waiting task_paused task_resumed task_completed : EventType
  task_failed task_cancelled task_interrupted killswitch_triggered : EventType

-- The payloads of the events of a task, and of the kill switch
pub data EventPayload : Type 0 where
  of_task : (task_id : String) → EventPayload
  of_killswitch : (reason : String) (cancelled_task_ids : List String) → EventPayload

pub record Event : Type 0 where
  pub type : EventType
  pub correlation_id : String
  pub payload : EventPayload

pub data TaskError : Type 0 where
  empty_title bad_max_attempts duplicate_id unknown_task : TaskError
  illegal_transition : (source target : TaskState) → TaskError
  not_failed : TaskState → TaskError
  retries_exhausted empty_correlation : TaskError

pub record TaskStore : Type 0 where
  pub rows : List TaskRecord
  pub journal : Option (List Event)

-- `Event(...)` refuses an empty correlation id, and then `EventJournal.append` adds one row.
unfoldable pub append_event :
    Event → List Event → TaskStore → Result TaskError (Unit {0}) × TaskStore
append_event event events store =
    if is_blank event.correlation_id
    then (err empty_correlation, store)
    else (ok tt, record store { journal = some (events ++ event ∷ []) })

-- `if self._journal is not None`
unfoldable pub emit_to :
    Option (List Event) → Event → TaskStore → Result TaskError (Unit {0}) × TaskStore
unfolding append_event
emit_to none event store = (ok tt, store)
emit_to (some events) event store = append_event event events store

-- `_emit`
unfoldable pub emit :
    EventType → String → String → TaskStore → Result TaskError (Unit {0}) × TaskStore
unfolding emit_to
emit event_type correlation_id task_id store =
    emit_to store.journal
      (record { type = event_type; correlation_id = correlation_id; payload = of_task task_id })
      store

-- `_state_event`
unfoldable pub state_event : TaskState → EventType
state_event queued = task_created
state_event running = task_started
state_event waiting = task_waiting
state_event paused = task_paused
state_event resumable = task_resumed
state_event completed = task_completed
state_event failed = task_failed
state_event cancelled = task_cancelled

-- SELECT ... WHERE task_id = ?
unfoldable pub find_row : String → List TaskRecord → Option TaskRecord
find_row task_id [] = none
find_row task_id (r ∷ rs) = if str_eq r.task_id task_id then some r else find_row task_id rs

abbrev pub or_unknown : Option TaskRecord → Result TaskError TaskRecord
or_unknown none = err unknown_task
or_unknown (some r) = ok r

unfoldable pub get : String → TaskStore → Result TaskError TaskRecord
unfolding find_row
get task_id store = or_unknown (find_row task_id store.rows)

-- What follows a statement that may have raised.
abbrev pub and_then {ℓ} :
    {A B : Type ℓ}
    → Result TaskError A × TaskStore
    → (A → TaskStore → Result TaskError B × TaskStore)
    → Result TaskError B × TaskStore
and_then (ok a, store) f = f a store
and_then (err e, store) f = (err e, store)

unfoldable pub create :
    (task_id title correlation_id : String) (goal_ref plan_ref : Option String)
    (max_attempts now : ℕ)
    → TaskStore
    → Result TaskError TaskRecord × TaskStore
unfolding strip find_row emit get
create task_id title correlation_id goal_ref plan_ref max_attempts now store =
    let row : TaskRecord = record {
      task_id = task_id;
      title = strip title;
      goal_ref = goal_ref;
      plan_ref = plan_ref;
      state = queued;
      correlation_id = correlation_id;
      attempt = 1;
      max_attempts = max_attempts;
      created_at = now;
      updated_at = now;
    } in
    if is_blank (strip title)
    then (err empty_title, store)
    else if ltb max_attempts 1
    then (err bad_max_attempts, store)
    else elim (find_row task_id store.rows) [
      | some _ ↦ (err duplicate_id, store)
      | none ↦
          let stored : TaskStore = record store { rows = store.rows ++ row ∷ [] } in
          and_then (get task_id stored, stored)
            λ r s. and_then (emit task_created correlation_id task_id s) λ _ s'. (ok r, s')
    ]

-- UPDATE tasks SET state = ?, attempt = ?, updated_at = ? WHERE task_id = ?
unfoldable pub update_rows : String → TaskState → ℕ → ℕ → List TaskRecord → List TaskRecord
update_rows task_id state attempt now rows =
    map
      (λ r.
        if str_eq r.task_id task_id
        then record r { state = state; attempt = attempt; updated_at = now }
        else r)
      rows

-- `transition`, from the record that `get` returned on
unfoldable pub move :
    String → TaskState → Bool → ℕ → TaskRecord → TaskStore → Result TaskError TaskRecord × TaskStore
unfolding is_in legal_task_transitions update_rows emit state_event get
move task_id target bump_attempt now r store =
    let attempt = if bump_attempt then r.attempt + 1 else r.attempt in
    let stored : TaskStore = record store {
      rows = update_rows task_id target attempt now store.rows;
    } in
    if is_in target (legal_task_transitions r.state)
    then (and_then (emit (state_event target) r.correlation_id task_id stored)
        λ _ s. (get task_id s, s))
    else (err (illegal_transition r.state target), store)

unfoldable pub transition :
    String → TaskState → Bool → ℕ → TaskStore → Result TaskError TaskRecord × TaskStore
unfolding move
transition task_id target bump_attempt now store =
    and_then (get task_id store, store) (move task_id target bump_attempt now)

abbrev is_failed : TaskState → Bool
is_failed failed = true
is_failed _ = false

unfoldable pub retry : String → ℕ → TaskStore → Result TaskError TaskRecord × TaskStore
unfolding retries_left
retry task_id now store =
    and_then (get task_id store, store)
      λ r s.
        if is_failed r.state
        then (if ltb (retries_left r) 1
            then (err retries_exhausted, s)
            else transition task_id queued true now s)
        else (err (not_failed r.state), s)

-- ORDER BY updated_at DESC, rowid DESC: `r` has a smaller rowid than the rows that it is put among.
unfoldable pub insert_newest : TaskRecord → List TaskRecord → List TaskRecord
insert_newest r [] = r ∷ []
insert_newest r (q ∷ qs) =
    if leb r.updated_at q.updated_at then q ∷ insert_newest r qs else r ∷ q ∷ qs

unfoldable pub newest_first : List TaskRecord → List TaskRecord
unfolding insert_newest
newest_first [] = []
newest_first (r ∷ rs) = insert_newest r (newest_first rs)

-- The default `limit` of `list_tasks`.
abbrev pub default_limit : ℕ
default_limit = 100

-- `list_tasks()`, with its default arguments
unfoldable pub list_tasks : TaskStore → List TaskRecord
unfolding newest_first
list_tasks store = take default_limit (newest_first store.rows)

abbrev pub is_live : TaskState → Bool
is_live completed = false
is_live failed = false
is_live cancelled = false
is_live _ = true

-- The loop of `cancel_all`; `now` is the clock's answer at each of the transitions.
unfoldable pub cancel_each :
    ℕ → List TaskRecord → TaskStore → Result TaskError (List TaskRecord) × TaskStore
cancel_each now [] store = (ok [], store)
cancel_each now (r ∷ rs) store = elim (is_live r.state) [
  | true ↦
      and_then (transition r.task_id cancelled false now store)
        λ c s. and_then (cancel_each now rs s) λ cs s'. (ok (c ∷ cs), s')
  | false ↦ cancel_each now rs store
]

unfoldable pub cancel_all : ℕ → TaskStore → Result TaskError (List TaskRecord) × TaskStore
unfolding list_tasks cancel_each
cancel_all now store = cancel_each now (list_tasks store) store

abbrev pub is_in_flight : TaskState → Bool
is_in_flight running = true
is_in_flight waiting = true
is_in_flight _ = false

unfoldable pub interrupt_each :
    ℕ → List TaskRecord → TaskStore → Result TaskError (List TaskRecord) × TaskStore
interrupt_each now [] store = (ok [], store)
interrupt_each now (r ∷ rs) store = elim (is_in_flight r.state) [
  | true ↦ and_then (transition r.task_id resumable false now store) λ c s.
      and_then (emit task_interrupted r.correlation_id r.task_id s)
        λ _ s'. and_then (interrupt_each now rs s') λ cs s''. (ok (c ∷ cs), s'')
  | false ↦ interrupt_each now rs store
]

unfoldable pub mark_interrupted : ℕ → TaskStore → Result TaskError (List TaskRecord) × TaskStore
unfolding list_tasks interrupt_each
mark_interrupted now store = interrupt_each now (list_tasks store) store
