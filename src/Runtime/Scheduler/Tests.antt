-- ===== src/Runtime/Scheduler/Tests.antt =====
-- Runs of the scheduler, and the theorems at small inputs.
use mathlib.Core.List.{Memᴰ}
use xenopus.Prelude.{ℕ, All, ◌<◌, ◌≡◌, refl, true, none, some, List, [], ◌∷◌, inl, ok}
use xenopus.Prelude.Text.{show}
use xenopus.Persistence.Tasks.{create}
use xenopus.Runtime.Scheduler.Entries.{ScheduleEntry, interval, daily, next_due_time}
use xenopus.Runtime.Scheduler.{EntryState, FireResult, Scheduler, fired_state, enqueue, visit, tick}
use xenopus.Runtime.Scheduler.Due.{next_due_time-later}
use xenopus.Runtime.Scheduler.Clock.{OnClock, FiredFrom, tick-clock_entries}

abbrev every_ten : ScheduleEntry
every_ten = record {
  schedule_id = "s1";
  name = "sweep";
  kind = interval;
  created_at = 100;
  at_time = none;
  interval_seconds = some 10;
  time_of_day = none;
  weekday = none;
  max_executions = some 2;
  enabled = true;
}

-- every day at 09:00
abbrev at_nine : ScheduleEntry
at_nine = record every_ten {
  schedule_id = "s2";
  kind = daily;
  interval_seconds = none;
  time_of_day = some (9, 0);
}

abbrev fresh : ScheduleEntry → EntryState
fresh e = record { entry = e; executions = 0; last_fired = none }

abbrev scheduler : ScheduleEntry → Scheduler
scheduler e = record {
  store = record { rows = []; journal = none };
  journal = none;
  cooldown = 1;
  max_per_tick = 25;
  entries = fresh e ∷ [];
}

program : Unit {0}
unfolding next_due_time tick visit enqueue create show fired_state
program = tt

-- 09:00 sharp on the second day
nine_due : next_due_time at_nine 118800000000 ≡ some 205200000000
unfolding program
nine_due = refl

next_due_time-later_example : 118800000000 < 205200000000
next_due_time-later_example = next_due_time-later at_nine 118800000000 (inl refl) nine_due

abbrev one_fired : List FireResult
one_fired = record { schedule_id = "s1"; task_id = "0"; correlation_id = "sched-s1-1" } ∷ []

abbrev now : ℕ
now = 118800000000

abbrev both : Scheduler
both = record (scheduler at_nine) { entries = fresh every_ten ∷ fresh at_nine ∷ [] }

-- The tick fires the first entry and leaves the second one.
abbrev after : Scheduler
after = record both {
  store = (enqueue "0" (fresh every_ten) now both.store).1;
  entries = fired_state (fresh every_ten) now ∷ fresh at_nine ∷ [];
}

ticked : tick show [] now both ≡ ok (one_fired, after)
unfolding program
ticked = refl

tick-clock_entries_example :
    All (FiredFrom both.entries) one_fired
    × ((e : EntryState) → OnClock e → Memᴰ e both.entries → Memᴰ e after.entries)
tick-clock_entries_example = tick-clock_entries show [] now both one_fired after ticked
