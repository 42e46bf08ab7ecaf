-- ===== src/Runtime/Scheduler/Ticks.antt =====
-- How much one tick of the scheduler fires.
use xenopus.Prelude.{
  ℕ, suc, ◌≤◌, ◌<◌, ◌≡◌, true, ◌↔◌, some, List, [], ◌∷◌, arith, leb, ok, err, inl, inr, length,
  length-append, Bool-cases, String, Result,
}
use xenopus.Persistence.Tasks.{TaskStore, TaskRecord, TaskError}
use xenopus.Runtime.Scheduler
use xenopus.Runtime.Scheduler.Entries.{SchedulerError}
use xenopus.Runtime.Scheduler.{
  after_create, EntryState, FireResult, Loop, Scheduler, enqueue, is_fireable, fired_state, visit,
  visit_all, tick,
}

abbrev fired_count : Result SchedulerError Loop → ℕ
fired_count (ok l) = length l.fired
fired_count (err e) = 0

fired-after_create :
    (s : EntryState) (now : ℕ) (l : Loop) (r : Result TaskError TaskRecord) (store : TaskStore)
    → fired_count (after_create s now l r store) ≤ suc (length l.fired)
fired-after_create s now l (err e) store = omega arith
fired-after_create s now l (ok task) store = omega (arith, length-append {0} l.fired)

fired-visit :
    (fresh : ℕ → String) (cooldown now : ℕ) (s : EntryState) (l : Loop)
    → fired_count (visit fresh cooldown now s l) ≤ suc (length l.fired)
unfolding visit
fired-visit fresh cooldown now s l =
    let made = enqueue (fresh (length l.fired)) s now l.store in
    ground (arith, fired-after_create s now l made.0 made.1)

fired-visit_all :
    (fresh : ℕ → String) (cooldown most now : ℕ) (states : List EntryState) (l : Loop)
    → length l.fired ≤ most
    → fired_count (visit_all fresh cooldown most now states l) ≤ most
unfolding visit_all
fired-visit_all fresh cooldown most now [] l h = h
fired-visit_all fresh cooldown most now (s ∷ ss) l h =
    elim (Bool-cases (leb most (length l.fired))) [
      | inl full ↦ rw (full, visit_all) h
      | inr room ↦
          rw (room, visit_all)
            (go (fired-visit_all fresh cooldown most now ss) (visit fresh cooldown now s l)
              (ground (arith, fired-visit fresh cooldown now s l)))
    ]
  where
    go :
        ((l' : Loop)
          → length l'.fired ≤ most
          → fired_count (visit_all fresh cooldown most now ss l') ≤ most)
        → (r : Result SchedulerError Loop) → fired_count r ≤ most
        → fired_count (Scheduler.and_then r (visit_all fresh cooldown most now ss)) ≤ most
    go rest (ok l') k = rest l' k
    go rest (err e) k = omega arith

-- A tick that returns has fired at most `max_executions_per_tick` entries.
pub tick-length :
    (fresh : ℕ → String) (failures : List String) (now : ℕ) (s : Scheduler)
    {fired : List FireResult} {s' : Scheduler}
    → tick fresh failures now s ≡ ok (fired, s')
    → length fired ≤ s.max_per_tick
unfolding tick
tick-length fresh failures now s h = ground (
  arith,
  fired-visit_all fresh s.cooldown s.max_per_tick now s.entries
      (record { fired = []; done = []; store = s.store; journal = s.journal }),
)

-- What the loop leaves of an entry that it fired: one more execution, this time as its last, and
-- it is enabled only if it was and has executions left.
pub fired_state_lem :
    (s : EntryState) (now most : ℕ)
    → s.entry.max_executions ≡ some most
    → s.executions < most
    → ((fired_state s now).executions ≤ most)
      × (((fired_state s now).entry.enabled ≡ true)
          ↔ ((s.entry.enabled ≡ true) × ((fired_state s now).executions < most)))
unfolding fired_state
fired_state_lem s now most h k = (ground arith, (λ e. ground arith, λ e. ground arith))
