-- ===== src/Provider/Health/Tests.antt =====
-- A tracker with a threshold of three failures.
use xenopus.Prelude.{◌≡◌, not, ◌&&◌, some, [], ◌∷◌, leb, ltb, ◌+◌}
use xenopus.Provider.Health.{Tracker, transient, cooldown, snapshot, record_failure, is_available}
use xenopus.Provider.Health.Breaker.{failures_at, failures-open}

abbrev fresh : Tracker
fresh = record { rate_limit_cooldown = 30; unavailable_cooldown = 60; threshold = 3; states = [] }

abbrev cooling : Tracker
cooling = record fresh {
  states =
      (
        "p",
        record {
          provider = "p";
          state = cooldown;
          cooldown_until = some 100;
          consecutive_failures = 3;
        },
      )
      ∷ [];
}

failures-open_example :
    (is_available "p" 50 (record_failure "p" transient 3 (failures_at "p" (1 ∷ 2 ∷ []) fresh)).1).0
    ≡ not (leb 3 ((snapshot "p" fresh).consecutive_failures + 2 + 1) && ltb 50 63)
failures-open_example = failures-open "p" (1 ∷ 2 ∷ []) 3 50 fresh
