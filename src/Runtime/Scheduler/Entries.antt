-- ===== src/Runtime/Scheduler/Entries.antt =====
-- Schedule entries of src/xenopus/runtime/scheduler.py, their checks, and when they are due.
use xenopus.Prelude.{
  ℕ, ◌+◌, ◌-◌, ◌*◌, ◌/◌, ◌%◌, Bool, true, false, Option, none, some, String, Result, ok, err, ltb,
  leb, ◌&&◌, if◌then◌else◌,
}
use xenopus.Prelude.Strip.{strip, is_blank}
use xenopus.Persistence.Tasks.{TaskError}

pub data ScheduleKind : Type 0 where
  once interval daily weekly : ScheduleKind

pub record ScheduleEntry : Type 0 where
  pub schedule_id : String
  pub name : String
  pub kind : ScheduleKind
  pub created_at : ℕ
  pub at_time : Option ℕ
  pub interval_seconds : Option ℕ
  pub time_of_day : Option (ℕ × ℕ)
  -- the index in WEEKDAYS
  pub weekday : Option ℕ
  pub max_executions : Option ℕ
  pub enabled : Bool

pub data SchedulerError : Type 0 where
  empty_name no_at_time no_interval no_time_of_day no_weekday unknown_weekday : SchedulerError
  bad_max_executions already_registered bad_time : SchedulerError
  task_error : TaskError → SchedulerError

abbrev pub is_some {ℓ} : {A : Type ℓ} → Option A → Bool
is_some none = false
is_some (some a) = true

abbrev positive : Option ℕ → Bool
positive none = false
positive (some n) = leb 1 n

abbrev below7 : Option ℕ → Bool
below7 none = false
below7 (some n) = ltb n 7

abbrev allows_one : Option ℕ → Bool
allows_one none = true
allows_one (some n) = leb 1 n

-- The test of `__post_init__` that belongs to the kind.
abbrev check_kind : ScheduleKind → ScheduleEntry → Result SchedulerError (Unit {0})
check_kind once e = if is_some e.at_time then ok tt else err no_at_time
check_kind interval e = if positive e.interval_seconds then ok tt else err no_interval
check_kind daily e = if is_some e.time_of_day then ok tt else err no_time_of_day
check_kind weekly e =
    if is_some e.time_of_day && is_some e.weekday
    then (if below7 e.weekday then ok tt else err unknown_weekday)
    else err no_weekday

abbrev or_max : Result SchedulerError (Unit {0}) → ScheduleEntry → Result SchedulerError (Unit {0})
or_max (ok _) e = if allows_one e.max_executions then ok tt else err bad_max_executions
or_max (err x) e = err x

-- `ScheduleEntry.__post_init__`
unfoldable pub post_init : ScheduleEntry → Result SchedulerError (Unit {0})
unfolding strip
post_init e = if is_blank (strip e.name) then err empty_name else or_max (check_kind e.kind e) e

abbrev pub day : ℕ
day = 86400000000

abbrev pub minute : ℕ
minute = 60000000

-- `now.weekday()`: the epoch was a Thursday.
abbrev pub weekday_of : ℕ → ℕ
weekday_of now = (now / day + 3) % 7

-- now.replace(hour=hour, minute=minute, second=0, microsecond=0)
abbrev pub candidate_of : ℕ → ℕ → ℕ → ℕ
candidate_of now hour mins = now / day * day + (hour * 60 + mins) * minute

abbrev pub get_or : Option ℕ → ℕ
get_or none = 0
get_or (some n) = n

unfoldable pub interval_due : ℕ → ℕ → ℕ → ℕ
interval_due created_at step now =
    let slots = (now - created_at) / step in
    if leb 1 slots then created_at + slots * step else created_at + step

-- `replace` raises for an hour or a minute out of range.
unfoldable pub daily_due : Option (ℕ × ℕ) → ℕ → Option ℕ
daily_due none now = none
daily_due (some (hour, mins)) now =
    let candidate = candidate_of now hour mins in
    if ltb hour 24 && ltb mins 60
    then some (if leb candidate now then candidate + day else candidate)
    else none

unfoldable pub weekly_due : Option (ℕ × ℕ) → ℕ → ℕ → Option ℕ
weekly_due none target now = none
weekly_due (some (hour, mins)) target now =
    let candidate = candidate_of now hour mins + (target + 7 - weekday_of now) % 7 * day in
    if ltb hour 24 && ltb mins 60
    then some (if leb candidate now then candidate + 7 * day else candidate)
    else none

-- `next_due_time`; `none` stands for the exception.
unfoldable pub due_of : ScheduleKind → ScheduleEntry → ℕ → Option ℕ
unfolding interval_due daily_due weekly_due
due_of once e now = e.at_time
due_of interval e now = some (interval_due e.created_at (get_or e.interval_seconds) now)
due_of daily e now = daily_due e.time_of_day now
due_of weekly e now = weekly_due e.time_of_day (get_or e.weekday) now

unfoldable pub next_due_time : ScheduleEntry → ℕ → Option ℕ
unfolding due_of
next_due_time e now = due_of e.kind e now
