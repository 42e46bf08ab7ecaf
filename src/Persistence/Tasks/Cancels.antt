-- ===== src/Persistence/Tasks/Cancels.antt =====
-- The kill switch's `cancel_all` on a store that its listing shows whole.
use mathlib.Core.List.{Memᴰ, append-nil, append_assoc}
use xenopus.Prelude.{
  ℕ, ◌≤◌, ◌≡◌, ◌≢◌, refl, sym, ap, ◌∙◌, true, false, ◌⊎◌, Option, some, List, [], ◌∷◌, ◌++◌, map,
  String, Result, str_eq, str_eq_iff, ok, arith, All, All-map, length, Bool-cases, inl, inr,
  if◌then◌else◌,
}
use xenopus.Persistence.Tasks
use xenopus.Persistence.Tasks.{
  TaskState, cancelled, TaskRecord, TaskStore, TaskError, is_in, is_live, legal_task_transitions,
  find_row, newest_first, list_tasks, default_limit, transition, cancel_each, cancel_all, emit,
  state_event,
}
use xenopus.Prelude.Strip.{is_blank}
use xenopus.Persistence.Tasks.Table.{
  take-all, stored_self, updated, Distinct, find_row-task_id, find_row-Memᴰ, All-newest_first,
  Distinct-newest_first, Memᴰ-newest_first, length-newest_first,
}
use xenopus.Persistence.Tasks.Transitions.{
  CanEmit, CanEmit-transition, transition-find_row, transition-journal, transition_contract,
}

live-cancelled :
    (t : TaskState) → is_live t ≡ true → is_in cancelled (legal_task_transitions t) ≡ true
unfolding is_in legal_task_transitions
live-cancelled cancelled h = cc
live-cancelled Tasks.completed h = cc
live-cancelled Tasks.failed h = cc
live-cancelled _ h = refl

-- The rows that a loop still has to visit stand in the table as they were listed.
record Pending (rs : List TaskRecord) (s : TaskStore) : Type 0 where
  stored : All (λ q. find_row q.task_id s.rows ≡ some q) rs
  distinct : Distinct rs
  can : All (λ q. CanEmit s q.correlation_id) rs

module _ (now : ℕ) (r : TaskRecord) (rs : List TaskRecord) (s : TaskStore) where
  abbrev after : TaskStore
  after = (transition r.task_id cancelled false now s).1

  cancel_each-live :
      {u : TaskRecord} {cs : List TaskRecord}
      → is_live r.state ≡ true
      → (transition r.task_id cancelled false now s).0 ≡ ok u
      → (cancel_each now rs after).0 ≡ ok cs
      → ((cancel_each now (r ∷ rs) s).0 ≡ ok (u ∷ cs))
        × ((cancel_each now (r ∷ rs) s).1 ≡ (cancel_each now rs after).1)
  unfolding cancel_each
  cancel_each-live live h k = ground arith

  module _ (live : is_live r.state ≡ true) (p : Pending (r ∷ rs) s) where
    after-find_row :
        (j : String)
        → find_row j after.rows ≡ (
            if str_eq r.task_id j
            then some (updated cancelled r.attempt now r)
            else find_row j s.rows)
    after-find_row j =
        transition-find_row r.task_id cancelled false now s r p.stored.0
          (live-cancelled r.state live) j

    -- A row with another id stands in the table as before.
    after-kept :
        (q : TaskRecord)
        → q.task_id ≢ r.task_id
        → find_row q.task_id s.rows ≡ some q
        → find_row q.task_id after.rows ≡ some q
    after-kept q other found =
        ground (arith, after-find_row q.task_id, str_eq_iff r.task_id q.task_id)

    All-after :
        (qs : List TaskRecord)
        → All (λ q. q.task_id ≢ r.task_id) qs
        → All (λ q. find_row q.task_id s.rows ≡ some q) qs
        → All (λ q. find_row q.task_id after.rows ≡ some q) qs
    All-after [] a b = tt
    All-after (q ∷ qs) a b = (after-kept q a.0 b.0, All-after qs a.1 b.1)

    after-Pending : Pending rs after
    after-Pending = record {
      stored = All-after rs p.distinct.0 p.stored.1;
      distinct = p.distinct.1;
      can =
          All-map (λ q. CanEmit s q.correlation_id) (λ q. CanEmit after q.correlation_id)
            (λ q. CanEmit-transition q.correlation_id r.task_id cancelled false now s) rs p.can.1;
    }

-- Every live row of the table is still to be visited.
abbrev Covers : List TaskRecord → TaskStore → Type 0
Covers rs s =
    (k : String) (q : TaskRecord)
    → find_row k s.rows ≡ some q
    → (is_live q.state ≡ false) ⊎ Memᴰ q rs

Memᴰ-tail : {q r : TaskRecord} {rs : List TaskRecord} → Memᴰ q (r ∷ rs) → q ≢ r → Memᴰ q rs
Memᴰ-tail (Memᴰ.head e) other = absurd (other e)
Memᴰ-tail (Memᴰ.tail m) other = m

after-Covers :
    (now : ℕ) (r : TaskRecord) (rs : List TaskRecord) (s : TaskStore)
    → is_live r.state ≡ true
    → Pending (r ∷ rs) s
    → Covers (r ∷ rs) s
    → Covers rs (after now r rs s)
after-Covers now r rs s live p c k q h = elim (Bool-cases (str_eq r.task_id k)) [
  | inl e ↦ inl (ground (arith, rw e at (after-find_row now r rs s live p k)))
  | inr e ↦
      let before : find_row k s.rows ≡ some q =
        sym (rw e at (after-find_row now r rs s live p k)) ∙ h in
      elim (c k q before) [
        | inl dead ↦ inl dead
        | inr m ↦ inr (
            Memᴰ-tail m
              (λ same. ground (arith, find_row-task_id k s.rows before, str_eq_iff r.task_id k)))
      ]
]

skip-Covers :
    (r : TaskRecord) (rs : List TaskRecord) (s : TaskStore)
    → is_live r.state ≡ false
    → Covers (r ∷ rs) s
    → Covers rs s
skip-Covers r rs s dead c k q h = elim (Bool-cases (is_live q.state)) [
  | inl live ↦ elim (c k q h) [
    | inl no_live ↦ inl no_live
    | inr m ↦ inr (Memᴰ-tail m (λ same. cc (same, live, dead)))
  ]
  | inr no_live ↦ inl no_live
]

abbrev pub NoneLive : TaskStore → Type 0
NoneLive s = (k : String) (q : TaskRecord) → find_row k s.rows ≡ some q → is_live q.state ≡ false

-- The event TASK_CANCELLED of a task
abbrev pub cancellation : TaskRecord → Tasks.Event
cancellation r = record {
  type = Tasks.task_cancelled;
  correlation_id = r.correlation_id;
  payload = Tasks.of_task r.task_id;
}

-- A journal gets one event for each cancelled task, in their order.
abbrev pub Journals :
    Option (List Tasks.Event) → List TaskRecord → Option (List Tasks.Event) → Type 0
Journals journal rs end =
    (events : List Tasks.Event) → journal ≡ some events → end ≡ some (events ++ map cancellation rs)

abbrev Clears : Option (List Tasks.Event) → Result TaskError (List TaskRecord) × TaskStore → Type 0
Clears journal m =
    (cs : List TaskRecord) × (m.0 ≡ ok cs) × NoneLive m.1 × Journals journal cs m.1.journal

named_of_CanEmit :
    (s : TaskStore) (c : String) {events : List Tasks.Event}
    → CanEmit s c
    → s.journal ≡ some events
    → is_blank c ≡ false
named_of_CanEmit s c (inl bare) h = cc
named_of_CanEmit s c (inr named) h = named

-- The first cancellation, then those of the rest
Journals-cons :
    (now : ℕ) (r : TaskRecord) (rs cs : List TaskRecord) (s : TaskStore)
    (end : Option (List Tasks.Event))
    → is_live r.state ≡ true
    → Pending (r ∷ rs) s
    → Journals (after now r rs s).journal cs end
    → Journals s.journal (updated cancelled r.attempt now r ∷ cs) end
unfolding state_event
Journals-cons now r rs cs s end live p rest events journal =
    let named = named_of_CanEmit s r.correlation_id p.can.0 journal in
    let one =
      transition-journal r.task_id cancelled false now s r p.stored.0 (live-cancelled r.state live)
        events named journal in
    rest (events ++ cancellation r ∷ []) one
    ∙ ap some (append_assoc events (cancellation r ∷ []) (map cancellation cs))

cancel_each-Clears :
    (now : ℕ) (rs : List TaskRecord) (s : TaskStore)
    → Pending rs s
    → Covers rs s
    → Clears s.journal (cancel_each now rs s)
unfolding cancel_each
cancel_each-Clears now [] s p c = (
  [],
  refl,
  λ k q h. elim (c k q h) [ inl dead ↦ dead | inr m ↦ elim m [ ] ],
  λ events journal. journal ∙ ap some (sym (append-nil events)),
)
cancel_each-Clears now (r ∷ rs) s p c = elim (Bool-cases (is_live r.state)) [
  | inl live ↦
      let moved =
        transition_contract r.task_id r.task_id cancelled false now s r p.stored.0
          (live-cancelled r.state live) p.can.0 in
      let (cs, fine, clear, written) =
        cancel_each-Clears now rs (after now r rs s) (after-Pending now r rs s live p)
          (after-Covers now r rs s live p c) in
      let (result, store) = cancel_each-live now r rs s live moved.0 fine in
      (
        updated cancelled r.attempt now r ∷ cs,
        result,
        rw store clear,
        rw store (
            Journals-cons now r rs cs s (cancel_each now rs (after now r rs s)).1.journal live p
              written),
      )
  | inr dead ↦
      rw (dead, cancel_each)
        (cancel_each-Clears now rs s
          (record { stored = p.stored.1; distinct = p.distinct.1; can = p.can.1 })
          (skip-Covers r rs s dead c))
]

-- With at most a hundred tasks in the store, no two of one id, and correlation ids that the journal
-- accepts, `cancel_all` returns, no task in the table is live afterwards, and the journal has one event
-- more for each task that is returned.
pub cancel_all-clears :
    (now : ℕ) (s : TaskStore)
    → length s.rows ≤ default_limit
    → Distinct s.rows
    → All (λ q. CanEmit s q.correlation_id) s.rows
    → (cs : List TaskRecord) × ((cancel_all now s).0 ≡ ok cs)
      × NoneLive (cancel_all now s).1
      × Journals s.journal cs (cancel_all now s).1.journal
unfolding cancel_all list_tasks
cancel_all-clears now s few d can =
    rw (take-all 100 (newest_first s.rows) (omega (arith, few, length-newest_first s.rows))) (
      cancel_each-Clears now (newest_first s.rows) s
        (record {
          stored = All-newest_first _ s.rows (stored_self s.rows d);
          distinct = Distinct-newest_first s.rows d;
          can = All-newest_first _ s.rows can;
        })
        (λ k q h. inr (Memᴰ-newest_first s.rows (find_row-Memᴰ k s.rows q h))))
