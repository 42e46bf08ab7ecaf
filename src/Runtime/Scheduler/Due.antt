-- ===== src/Runtime/Scheduler/Due.antt =====
-- When an entry is due.
use native.Mathlib.Nat.{div-add-mod, mod-lt}
use xenopus.Prelude.{
  ℕ, zero, suc, ◌+◌, ◌-◌, ◌*◌, ◌/◌, ◌%◌, ◌≤◌, ◌<◌, ◌≡◌, ◌⊎◌, Option, none, some, arith, leb, inl,
  inr, if◌then◌else◌,
}
use xenopus.Runtime.Scheduler.Entries.{
  daily, weekly, ScheduleEntry, daily_due, weekly_due, interval_due, next_due_time, get_or, day,
  candidate_of, weekday_of,
}

daily_due-later : (t : Option (ℕ × ℕ)) (now : ℕ) {due : ℕ} → daily_due t now ≡ some due → now < due
unfolding daily_due
daily_due-later none now h = cc
daily_due-later (some (hour, mins)) now h = ground arith

week-later :
    (candidate ahead now : ℕ) {due : ℕ}
    → now < candidate + day
    → (if leb (candidate + ahead * day) now
        then candidate + ahead * day + 7 * day
        else candidate + ahead * day)
      ≡ due
    → now < due
week-later candidate ahead now h e = ground arith

weekly_due-later :
    (t : Option (ℕ × ℕ)) (target now : ℕ) {due : ℕ} → weekly_due t target now ≡ some due → now < due
unfolding weekly_due
weekly_due-later none target now h = cc
weekly_due-later (some (hour, mins)) target now h =
    week-later (candidate_of now hour mins) ((target + 7 - weekday_of now) % 7) now (omega arith)
      (ground arith)

-- A DAILY or a WEEKLY entry is always due strictly after the present time.
pub next_due_time-later :
    (e : ScheduleEntry) (now : ℕ) {due : ℕ}
    → (e.kind ≡ daily) ⊎ (e.kind ≡ weekly)
    → next_due_time e now ≡ some due
    → now < due
unfolding next_due_time
next_due_time-later e now (inl d) h = daily_due-later e.time_of_day now (rw d at h)
next_due_time-later e now (inr w) h =
    weekly_due-later e.time_of_day (get_or e.weekday) now (rw w at h)

slot_of :
    (created step slots rest now : ℕ)
    → now ≡ created + (slots * step + rest)
    → rest < step
    → ((created + step ≤ now)
        × ((if leb 1 slots then created + slots * step else created + step) ≤ now)
        × (now < (if leb 1 slots then created + slots * step else created + step) + step))
      ⊎ ((now < created + step)
          × ((if leb 1 slots then created + slots * step else created + step) ≡ created + step))
slot_of created step zero rest now e small = inr (ground arith, ground arith)
slot_of created step (suc n) rest now e small = inl (omega arith, ground arith, ground arith)

-- The due time of an INTERVAL entry: a whole number of intervals behind its creation, at least one.
-- Once an interval has passed it is the latest such time that is not in the future; before that it
-- is still to come.
pub interval_due_lem :
    (created step now : ℕ)
    → 0 < step
    → created ≤ now
    → ((created + step ≤ now)
        × (interval_due created step now ≤ now)
        × (now < interval_due created step now + step))
      ⊎ ((now < created + step) × (interval_due created step now ≡ created + step))
unfolding interval_due
interval_due_lem created step now pos born =
    slot_of created step ((now - created) / step) ((now - created) % step) now
      (omega (arith, div-add-mod (now - created) step)) (mod-lt (now - created) pos)
