-- ===== src/Runtime/Notifications.antt =====
-- src/xenopus/runtime/notifications.py: the router of notifications to local sinks. A sink's output is
-- the list of what it was handed, and the clock is read once for each event that is routed. Points in
-- time are microseconds of the wall clock, from a midnight on.
pub mod Deliveries
mod Tests
use xenopus.Prelude.{
  ℕ, suc, ◌+◌, ◌-◌, ◌%◌, Bool, true, false, not, ◌&&◌, ◌||◌, Option, none, some, List, [], ◌∷◌,
  ◌++◌, String, Result, ok, err, ltb, leb, length, take, map, is_empty, if◌then◌else◌,
}
use xenopus.Prelude.Dict.{Dict, lookup, insert, has}
use xenopus.Prelude.Text.{join, show}
use xenopus.Prelude.Window.{recent}

pub data Priority : Type 0 where
  silent normal critical : Priority

abbrev pub QuietHours : Type 0
QuietHours = ℕ × ℕ

abbrev pub day : ℕ
day = 86400000000

abbrev pub minute : ℕ
minute = 60000000

-- `QuietHours.is_quiet`
unfoldable pub is_quiet : QuietHours → ℕ → Bool
is_quiet (start, end_of) now =
    let moment : ℕ = now % day in
    if leb start end_of
    then leb start moment && ltb moment end_of
    else leb start moment || ltb moment end_of

pub record SubscriberPolicy : Type 0 where
  pub subscriber : String
  pub rate_limit_per_minute : ℕ
  pub quiet_hours : Option QuietHours
  pub digest : Bool

pub record Notification : Type 0 where
  pub notification_id : String
  pub subscriber : String
  pub priority : Priority
  pub message : String
  pub event_type : String
  pub correlation_id : String
  pub created_at : ℕ

pub data Reason : Type 0 where
  was_silent held_for_digest in_quiet_hours rate_limited for_digest was_delivered digest_flushed :
      Reason

-- What the routing to one subscriber changes, and the journal
pub record NotificationRouter : Type 0 where
  pub priorities : Dict Priority
  pub subscribers : Dict SubscriberPolicy
  pub sinks : Dict (List Notification)
  pub digests : Dict (List Notification)
  pub hits : Dict (List ℕ)
  pub journal : List (Notification × Reason)

pub data NotificationError : Type 0 where
  already_registered unknown_subscriber : NotificationError

abbrev pub or_empty : {A : Type 0} → Option (List A) → List A
or_empty none = []
or_empty (some xs) = xs

abbrev pub or_silent : Option Priority → Priority
or_silent none = silent
or_silent (some p) = p

unfoldable pub subscribe :
    SubscriberPolicy → NotificationRouter → Result NotificationError (Unit {0}) × NotificationRouter
unfolding has insert
subscribe policy router =
    if has policy.subscriber router.subscribers
    then (err already_registered, router)
    else (ok tt, record router { subscribers = insert policy.subscriber policy router.subscribers })

unfoldable pub event_priority : String → NotificationRouter → Priority
unfolding lookup
event_priority event_type router = or_silent (lookup event_type router.priorities)

-- `_WindowCounter.allow`: a refusal writes nothing.
unfoldable pub allow : String → ℕ → ℕ → Dict (List ℕ) → Bool × Dict (List ℕ)
unfolding recent lookup insert
allow subscriber now limit hits =
    let kept : List ℕ = recent minute now (or_empty (lookup subscriber hits)) in
    if leb limit (length kept)
    then (false, hits)
    else (true, insert subscriber (kept ++ now ∷ []) hits)

-- `_record`, with a journal
unfoldable pub note : Notification → Reason → NotificationRouter → NotificationRouter
note n reason router = record router { journal = router.journal ++ (n, reason) ∷ [] }

unfoldable pub hold : Notification → NotificationRouter → NotificationRouter
unfolding lookup insert
hold n router = record router {
  digests =
      insert n.subscriber (or_empty (lookup n.subscriber router.digests) ++ n ∷ []) router.digests;
}

unfoldable pub deliver : Notification → NotificationRouter → NotificationRouter
unfolding lookup insert
deliver n router = record router {
  sinks = insert n.subscriber (or_empty (lookup n.subscriber router.sinks) ++ n ∷ []) router.sinks;
}

abbrev pub is_silent : Priority → Bool
is_silent silent = true
is_silent _ = false

abbrev pub is_normal : Priority → Bool
is_normal normal = true
is_normal _ = false

abbrev pub quiet_now : Option QuietHours → ℕ → Bool
quiet_now none now = false
quiet_now (some hours) now = is_quiet hours now

-- The body of the loop of `route`; the notification is returned when it was delivered.
unfoldable pub route_one :
    SubscriberPolicy
    → Notification
    → ℕ
    → NotificationRouter
    → List Notification × NotificationRouter
unfolding is_quiet allow note hold deliver
route_one policy n now router =
    let (allowed, hits) = allow n.subscriber now policy.rate_limit_per_minute router.hits in
    let counted : NotificationRouter = record router { hits = hits } in
    if is_silent n.priority
    then ([], note n was_silent router)
    else if is_normal n.priority && quiet_now policy.quiet_hours now
    then (if policy.digest
        then ([], note n held_for_digest (hold n router))
        else ([], note n in_quiet_hours router))
    else if not allowed
    then ([], note n rate_limited router)
    else if policy.digest && is_normal n.priority
    then ([], note n for_digest (hold n counted))
    else (n ∷ [], note n was_delivered (deliver n counted))

module _ (new_id : String → String) (event_type message correlation_id : String) (now : ℕ) where
  unfoldable pub notification_for : Priority → String → Notification
  notification_for priority subscriber = record {
    notification_id = new_id subscriber;
    subscriber = subscriber;
    priority = priority;
    message = message;
    event_type = event_type;
    correlation_id = correlation_id;
    created_at = now;
  }

  unfoldable pub route_each :
      Priority → Dict SubscriberPolicy → NotificationRouter → List Notification × NotificationRouter
  unfolding route_one notification_for
  route_each priority [] router = ([], router)
  route_each priority ((subscriber, policy) ∷ rest) router =
      let (sent, router') = route_one policy (notification_for priority subscriber) now router in
      let (others, router'') = route_each priority rest router' in (sent ++ others, router'')

  unfoldable pub route : NotificationRouter → List Notification × NotificationRouter
  unfolding route_each event_priority
  route router = route_each (event_priority event_type router) router.subscribers router

-- `"; ".join(...)`
unfoldable pub join_all : List String → String
unfolding join
join_all [] = ""
join_all (s ∷ []) = s
join_all (s ∷ t ∷ rest) = join s (join "; " (join_all (t ∷ rest)))

unfoldable pub digest_message : List Notification → String
unfolding join_all show
digest_message held = join "digest: " (
    join (show (length held)) (
      join " held notification(s): " (
        join (join_all (map (λ n. n.message) (take 5 held)))
          (if ltb 5 (length held) then "..." else ""))))

unfoldable pub summary_of : String → String → ℕ → List Notification → Notification
unfolding digest_message
summary_of notification_id subscriber now held = record {
  notification_id = notification_id;
  subscriber = subscriber;
  priority = normal;
  message = digest_message held;
  event_type = "DIGEST";
  correlation_id = "digest";
  created_at = now;
}

-- `flush_digest` behind its test of the subscriber
abbrev pub flush_held :
    String
    → String
    → ℕ
    → List Notification
    → NotificationRouter
    → Result NotificationError (List Notification) × NotificationRouter
flush_held notification_id subscriber now [] router = (ok [], router)
flush_held notification_id subscriber now (n ∷ held) router =
    let summary : Notification = summary_of notification_id subscriber now (n ∷ held) in
    let delivered : NotificationRouter = deliver summary router in
    let cleared : NotificationRouter = record delivered {
      digests = insert subscriber [] delivered.digests;
    } in
    (ok (n ∷ held), note summary digest_flushed cleared)

unfoldable pub flush_digest :
    String
    → String
    → ℕ
    → NotificationRouter
    → Result NotificationError (List Notification) × NotificationRouter
unfolding has lookup insert summary_of deliver note
flush_digest notification_id subscriber now router =
    if has subscriber router.subscribers
    then flush_held notification_id subscriber now (or_empty (lookup subscriber router.digests))
        router
    else (err unknown_subscriber, router)
