-- ===== src/Runtime/Notifications/Tests.antt =====
-- One subscriber, and the theorems at it.
use xenopus.Prelude.{◌≡◌, refl, true, some, [], ◌∷◌, ◌++◌, ok, length}
use xenopus.Prelude.Dict.{lookup, has}
use xenopus.Prelude.Window.{recent}
use xenopus.Runtime.Notifications.{
  critical, normal, SubscriberPolicy, Notification, NotificationRouter, or_empty, hold,
  flush_digest,
}
use xenopus.Runtime.Notifications.Deliveries.{flush_digest-hold}

abbrev policy : SubscriberPolicy
policy = record {
  subscriber = "ops";
  rate_limit_per_minute = 1;
  quiet_hours = some (79200000000, 25200000000);
  digest = true;
}

abbrev alarm : Notification
alarm = record {
  notification_id = "ntf-1";
  subscriber = "ops";
  priority = critical;
  message = "failed";
  event_type = "TASK_FAILED";
  correlation_id = "c";
  created_at = 70;
}

abbrev router : NotificationRouter
router = record {
  priorities = ("TASK_FAILED", critical) ∷ ("TASK_COMPLETED", normal) ∷ [];
  subscribers = ("ops", policy) ∷ [];
  sinks = [];
  digests = [];
  hits = ("ops", 60 ∷ []) ∷ [];
  journal = [];
}

limited : length (recent 60000000 70 (60 ∷ [])) ≡ 1
unfolding recent
limited = refl

flush_digest-hold_example :
    ((flush_digest "ntf-2" "ops" 80 (hold alarm router)).0
      ≡ ok (or_empty (lookup "ops" router.digests) ++ alarm ∷ []))
    × (lookup "ops" (flush_digest "ntf-2" "ops" 80 (hold alarm router)).1.digests ≡ some [])
unfolding has
flush_digest-hold_example = flush_digest-hold "ntf-2" 80 alarm router refl
