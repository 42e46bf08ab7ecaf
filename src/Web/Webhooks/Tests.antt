-- ===== src/Web/Webhooks/Tests.antt =====
-- A request to the webhook surface, and the theorems at it.
use xenopus.Prelude.{ℕ, ◌≡◌, ◌≢◌, refl, true, Option, none, some, [], ◌∷◌, List, String, ok, arith}
use xenopus.Prelude.Dict.{lookup, insert, has}
use xenopus.Prelude.Strip.{strip}
use xenopus.Prelude.Text.{join, is_ascii, drop_chars, take_chars}
use xenopus.Prelude.Window.{recent}
use xenopus.Persistence.Tasks.{TaskRecord, create, queued, find_row}
use xenopus.Web.Webhooks.{
  string, Payload, Request, WebhookConfig, Surface, accepted, fresh, unexpired, allow, timestamp_ok,
  signature_ok, with_nonce, with_payload, authenticate, adjudicate, receive,
}
use xenopus.Web.Webhooks.Shown.{Shown, adjudicate-Shown}
use xenopus.Web.Webhooks.Effects.{answer}
use xenopus.Web.Webhooks.Replay.{Arrival, answer_all, replay-refused, replay-after_ttl}

abbrev size : String → ℕ
size body = 8

abbrev hex : String → String → String
hex secret body = join secret body

abbrev parse : String → Option Payload
parse body = some (record { type = string "task.create"; id = string body; title = string " fix " })

abbrev config : WebhookConfig
config = record {
  secrets = ("ci", "key") ∷ [];
  max_clock_skew = 300;
  max_body_bytes = 1000;
  rate_limit_per_minute = 30;
  nonce_ttl = 600;
}

abbrev event : ℕ → Request String
event stamp = record {
  source = "ci";
  signature = "sha256=keyn1";
  timestamp = some stamp;
  body = "n1";
}

abbrev empty : Surface
empty = record { seen = []; hits = []; store = record { rows = []; journal = none }; journal = [] }

abbrev after : Surface
after = (answer size hex parse config "task-1" 100 (event 100) empty).1

abbrev task : String → ℕ → TaskRecord
task task_id now = record {
  task_id = task_id;
  title = "fix";
  goal_ref = none;
  plan_ref = none;
  state = queued;
  correlation_id = "webhook:ci:n1";
  attempt = 1;
  max_attempts = 3;
  created_at = now;
  updated_at = now;
}

program : Unit {0}
unfolding receive adjudicate authenticate with_payload with_nonce fresh unexpired allow recent
    timestamp_ok signature_ok lookup insert has create find_row strip is_ascii drop_chars join
    take_chars
program = tt

event-accepted :
    (answer size hex parse config "task-1" 100 (event 100) empty).0 ≡ ok (accepted "task-1")
unfolding program
event-accepted = refl

adjudicated :
    (adjudicate size hex parse config "task-1" 100 (event 100) empty).0 ≡ ok (accepted "task-1")
unfolding program
adjudicated = refl

adjudicate-Shown_example : Shown size hex parse config "task-1" 100 (event 100) empty "task-1"
adjudicate-Shown_example =
    adjudicate-Shown size hex parse config "task-1" 100 (event 100) empty "task-1" adjudicated

abbrev between : List (Arrival String)
between = ("task-2", 150, event 150) ∷ []

replay-refused_example :
    (answer size hex parse config "task-3" 700
      (event 690)
      (answer_all size hex parse config between after)).0
    ≢ ok (accepted "task-3")
replay-refused_example =
    replay-refused size hex parse config "task-1" 100 (event 100) empty "task-1" between "task-3"
      700 (event 690) "task-3" event-accepted (ground arith) (ground arith) refl refl

after-allowed : (allow 30 "ci" 701 after.hits).0 ≡ true
unfolding program
after-allowed = refl

after-creates :
    (create "task-3" "fix" "webhook:ci:n1" none none 3 701 after.store).0 ≡ ok (task "task-3" 701)
unfolding program
after-creates = refl

stamp-ok : timestamp_ok (some 701) 701 300 ≡ true
unfolding timestamp_ok
stamp-ok = refl

replay-after_ttl_example :
    (answer size hex parse config "task-3" 701 (event 701) after).0 ≡ ok (accepted "task-3")
unfolding take_chars join strip
replay-after_ttl_example =
    replay-after_ttl size hex parse config "task-1" 100 (event 100) empty "task-1" "task-3" 701
      (some 701) (record { type = string "task.create"; id = string "n1"; title = string " fix " })
      "n1" " fix " (task "task-3" 701) event-accepted refl refl refl (ground arith) stamp-ok
      after-allowed after-creates
