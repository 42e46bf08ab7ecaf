-- ===== src/Provider/Health.antt =====
-- src/xenopus/provider/health.py: the circuit breaker of each provider. The clock's answer is the
-- argument `now`; times and durations are numbers of microseconds.
pub mod Breaker
pub mod Asking
mod Tests
use xenopus.Prelude.{
  ℕ, ◌+◌, Bool, true, false, Option, none, some, String, Result, ok, err, leb, if◌then◌else◌,
}
use xenopus.Prelude.Dict.{Dict, lookup, insert, empty}

pub data HealthState : Type 0 where
  healthy rate_limited unavailable cooldown : HealthState

pub record HealthSnapshot : Type 0 where
  pub provider : String
  pub state : HealthState
  pub cooldown_until : Option ℕ
  pub consecutive_failures : ℕ

-- What `record_failure` tells apart: `RateLimitError` with its `retry_after_seconds`, another error
-- that is permanent, and the rest
pub data ProviderError : Type 0 where
  rate_limit : Option ℕ → ProviderError
  permanent transient : ProviderError

pub record Tracker : Type 0 where
  pub rate_limit_cooldown : ℕ
  pub unavailable_cooldown : ℕ
  pub threshold : ℕ
  pub states : Dict HealthSnapshot

pub data TrackerError : Type 0 where
  bad_threshold : TrackerError

-- A duration is a natural number, so that the test for a negative one does not arise.
unfoldable pub new :
    (rate_limit_cooldown unavailable_cooldown threshold : ℕ) → Result TrackerError Tracker
new rate_limit_cooldown unavailable_cooldown threshold =
    if leb 1 threshold
    then ok (record {
      rate_limit_cooldown = rate_limit_cooldown;
      unavailable_cooldown = unavailable_cooldown;
      threshold = threshold;
      states = empty;
    })
    else err bad_threshold

unfoldable pub healthy_snapshot : String → HealthSnapshot
healthy_snapshot provider = record {
  provider = provider;
  state = healthy;
  cooldown_until = none;
  consecutive_failures = 0;
}

abbrev pub or_default : {A : Type 0} → Option A → A → A
or_default none a = a
or_default (some b) a = b

-- `_snapshot`, and `snapshot`
unfoldable pub snapshot : String → Tracker → HealthSnapshot
unfolding lookup healthy_snapshot
snapshot provider tracker = or_default (lookup provider tracker.states) (healthy_snapshot provider)

unfoldable pub put : String → HealthSnapshot → Tracker → HealthSnapshot × Tracker
unfolding insert
put provider snap tracker = (snap, record tracker { states = insert provider snap tracker.states })

-- The snapshot after one more failure that is not permanent
unfoldable pub failed_snapshot : String → HealthState → Option ℕ → ℕ → HealthSnapshot
failed_snapshot provider state cooldown_until failures = record {
  provider = provider;
  state = state;
  cooldown_until = cooldown_until;
  consecutive_failures = failures;
}

unfoldable pub record_failure : String → ProviderError → ℕ → Tracker → HealthSnapshot × Tracker
unfolding snapshot put failed_snapshot
record_failure provider (rate_limit retry_after) now tracker =
    put provider
      (failed_snapshot provider rate_limited
        (some (now + or_default retry_after tracker.rate_limit_cooldown))
        ((snapshot provider tracker).consecutive_failures + 1))
      tracker
record_failure provider permanent now tracker = (snapshot provider tracker, tracker)
record_failure provider transient now tracker =
    let failures : ℕ = (snapshot provider tracker).consecutive_failures + 1 in
    if leb tracker.threshold failures
    then put provider
        (failed_snapshot provider cooldown (some (now + tracker.unavailable_cooldown)) failures)
        tracker
    else put provider (failed_snapshot provider unavailable none failures) tracker

unfoldable pub record_success : String → Tracker → HealthSnapshot × Tracker
unfolding put healthy_snapshot
record_success provider tracker = put provider (healthy_snapshot provider) tracker

-- The deadline that `is_available` looks at: that of a rate limit or a cooldown
abbrev deadline_of : HealthState → Option ℕ → Option ℕ
deadline_of rate_limited until = until
deadline_of cooldown until = until
deadline_of _ until = none

abbrev pub deadline : HealthSnapshot → Option ℕ
deadline snap = deadline_of snap.state snap.cooldown_until

unfoldable pub is_available : String → ℕ → Tracker → Bool × Tracker
unfolding snapshot put healthy_snapshot
is_available provider now tracker = elim (deadline (snapshot provider tracker)) [
  | none ↦ (true, tracker)
  | some until ↦
      if leb until now
      then (true, (put provider (healthy_snapshot provider) tracker).1)
      else (false, tracker)
]
