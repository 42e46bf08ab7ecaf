-- ===== src/Persistence/Tasks/Transitions.antt =====
-- What `TaskStore.transition` and `retry` do to the table, on every branch.
use xenopus.Prelude.{
  ℕ, ◌+◌, ◌≤◌, ◌<◌, ◌≡◌, ◌≢◌, refl, ap, ◌∙◌, Bool, true, false, ◌⊎◌, none, some, String, List, [],
  ◌∷◌, ◌++◌, str_eq, str_eq_iff, ok, err, arith, Bool-cases, inl, inr, if◌then◌else◌,
}
use xenopus.Prelude.Strip.{is_blank}
use xenopus.Persistence.Tasks
use xenopus.Persistence.Tasks.{
  or_unknown, not_failed, retries_exhausted, state_event, TaskState, queued, failed, completed,
  cancelled, TaskRecord, TaskStore, TaskError, unknown_task, illegal_transition, is_in,
  legal_task_transitions, find_row, update_rows, emit, get, move, transition, retry, retries_left,
}
use xenopus.Persistence.Tasks.Table.{updated, find_row-update_rows}

pub emit-rows :
    (e : Tasks.EventType) (c k : String) (s : TaskStore) → (emit e c k s).1.rows ≡ s.rows
unfolding emit
emit-rows e c k s = ground arith

abbrev pub attempt_after : Bool → ℕ → ℕ
attempt_after bump n = if bump then n + 1 else n

-- The table after a transition of a stored task: the one row is updated if the move is legal, also
-- where the journal then refuses the event, and nothing changes if it is not.
pub transition-rows :
    (k : String) (target : TaskState) (bump : Bool) (now : ℕ) (s : TaskStore) (r : TaskRecord)
    → find_row k s.rows ≡ some r
    → (transition k target bump now s).1.rows ≡ (
        if is_in target (legal_task_transitions r.state)
        then update_rows k target (attempt_after bump r.attempt) now s.rows
        else s.rows)
unfolding transition
transition-rows k target bump now s r found = ground arith

-- A call with an unknown id raises and changes nothing; neither does an illegal move.
pub transition-refused :
    (k : String) (target : TaskState) (bump : Bool) (now : ℕ) (s : TaskStore)
    → (find_row k s.rows ≡ none)
      ⊎ ((r : TaskRecord) × (find_row k s.rows ≡ some r)
          × (is_in target (legal_task_transitions r.state) ≡ false))
    → (e : TaskError) × (transition k target bump now s ≡ (err e, s))
unfolding transition
transition-refused k target bump now s (inl missing) = (unknown_task, ground arith)
transition-refused k target bump now s (inr (r, found, illegal)) =
    (illegal_transition r.state target, ground arith)

-- The journal accepts events with this correlation id: there is no journal, or the id is not empty.
abbrev pub CanEmit : TaskStore → String → Type 0
CanEmit s c = (s.journal ≡ none) ⊎ (is_blank c ≡ false)

pub emit-ok :
    (e : Tasks.EventType) (c k : String) (s : TaskStore) → CanEmit s c → (emit e c k s).0 ≡ ok tt
unfolding emit
emit-ok e c k s h = ground arith

module _ (k : String) (target : TaskState) (bump : Bool) (now : ℕ) (s : TaskStore) (r : TaskRecord)
    (found : find_row k s.rows ≡ some r)
    (legal : is_in target (legal_task_transitions r.state) ≡ true) where
  transition-reads :
      CanEmit s r.correlation_id
      → (transition k target bump now s).0
        ≡ or_unknown (find_row k (transition k target bump now s).1.rows)
  unfolding transition
  transition-reads can = ground (
    arith,
    emit-ok (state_event target) r.correlation_id k
        (record s { rows = update_rows k target (attempt_after bump r.attempt) now s.rows }) can,
  )

  pub transition-find_row :
      (j : String)
      → find_row j (transition k target bump now s).1.rows ≡ (
          if str_eq k j
          then some (updated target (attempt_after bump r.attempt) now r)
          else find_row j s.rows)
  transition-find_row j = ground (
    arith,
    transition-rows k target bump now s r found,
    find_row-update_rows j k target (attempt_after bump r.attempt) now s.rows,
    str_eq_iff k j,
    found,
  )

  -- The journal has one event more, with the correlation id of the task.
  pub transition-journal :
      (events : List Tasks.Event)
      → is_blank r.correlation_id ≡ false
      → s.journal ≡ some events
      → (transition k target bump now s).1.journal
        ≡ some (
            events
            ++ record {
              type = state_event target;
              correlation_id = r.correlation_id;
              payload = Tasks.of_task k;
            }
              ∷ [])
  unfolding transition
  transition-journal events named journal = ground arith

pub CanEmit-transition :
    (c k : String) (target : TaskState) (bump : Bool) (now : ℕ) (s : TaskStore)
    → CanEmit s c
    → CanEmit (transition k target bump now s).1 c
unfolding transition
CanEmit-transition c k target bump now s h = ground arith

-- A legal move of a stored task whose events the journal accepts returns the updated row. The table
-- holds that row under its id, and under every other id what it held before.
pub transition_contract :
    (k j : String) (target : TaskState) (bump : Bool) (now : ℕ) (s : TaskStore) (r : TaskRecord)
    → find_row k s.rows ≡ some r
    → is_in target (legal_task_transitions r.state) ≡ true
    → CanEmit s r.correlation_id
    → ((transition k target bump now s).0
        ≡ ok (updated target (attempt_after bump r.attempt) now r))
      × (find_row k (transition k target bump now s).1.rows
          ≡ some (updated target (attempt_after bump r.attempt) now r))
      × ((k ≡ j) ⊎ (find_row j (transition k target bump now s).1.rows ≡ find_row j s.rows))
transition_contract k j target bump now s r found legal can =
    let at_k = transition-find_row k target bump now s r found legal k in
    let at_j = transition-find_row k target bump now s r found legal j in
    let reads = transition-reads k target bump now s r found legal can in
    let self : str_eq k k ≡ true = (str_eq_iff k k).1 refl in
    let now_k = rw self at at_k in
    (
      reads ∙ ap or_unknown now_k,
      now_k,
      elim (Bool-cases (str_eq k j)) [
        | inl e ↦ inl ((str_eq_iff k j).0 e)
        | inr e ↦ inr (rw e at at_j)
      ],
    )

failed_cases : (t : TaskState) → (t ≡ failed) ⊎ (t ≢ failed)
failed_cases failed = inl refl
failed_cases _ = inr (λ e. cc)

failed-queued : (t : TaskState) → t ≡ failed → is_in queued (legal_task_transitions t) ≡ true
unfolding is_in legal_task_transitions
failed-queued failed h = refl
failed-queued _ h = cc

retry-eq-transition :
    (k : String) (now : ℕ) (s : TaskStore) (r : TaskRecord)
    → find_row k s.rows ≡ some r
    → r.state ≡ failed
    → r.attempt < r.max_attempts
    → retry k now s ≡ transition k queued true now s
unfolding retry get
retry-eq-transition k now s r found f left = ground arith

-- A FAILED task with an attempt left is queued again, with one more attempt, when the journal
-- accepts its events.
pub retry_contract :
    (k : String) (now : ℕ) (s : TaskStore) (r : TaskRecord)
    → find_row k s.rows ≡ some r
    → r.state ≡ failed
    → r.attempt < r.max_attempts
    → CanEmit s r.correlation_id
    → ((retry k now s).0 ≡ ok (updated queued (r.attempt + 1) now r))
      × (find_row k (retry k now s).1.rows ≡ some (updated queued (r.attempt + 1) now r))
retry_contract k now s r found f left can =
    let (a, b, _) =
      transition_contract k k queued true now s r found (failed-queued r.state f) can in
    rw (retry-eq-transition k now s r found f left) (a, b)

-- A stored task that is not FAILED, or has no attempt left, is refused and nothing changes.
pub retry-refused :
    (k : String) (now : ℕ) (s : TaskStore) (r : TaskRecord)
    → find_row k s.rows ≡ some r
    → (r.state ≢ failed) ⊎ (r.max_attempts ≤ r.attempt)
    → (e : TaskError) × (retry k now s ≡ (err e, s))
unfolding retry get
retry-refused k now s r found (inl other) = (not_failed r.state, ground arith)
retry-refused k now s r found (inr spent) = elim (failed_cases r.state) [
  | inl f ↦ (retries_exhausted, ground arith)
  | inr other ↦ (not_failed r.state, ground arith)
]
