-- ===== src/Runtime/Notifications/Deliveries.antt =====
-- What is delivered, what is held, and the journal's evidence for both.
use xenopus.Prelude.{
  ℕ, ◌+◌, ◌≡◌, refl, true, false, some, List, [], ◌∷◌, ◌++◌, String, str_eq_iff, ok, arith, leb,
  length, length-append, is_empty,
}
use xenopus.Prelude.Dict.{Dict, lookup, has, lookup-insert, lookup-insert_self}
use xenopus.Prelude.Window.{recent}
use xenopus.Runtime.Notifications.{
  Priority, SubscriberPolicy, Notification, Reason, NotificationRouter, or_empty, minute,
  event_priority, allow, note, hold, deliver, route_one, notification_for, route_each, route,
  flush_held, flush_digest, summary_of,
}

route_one-journal :
    (policy : SubscriberPolicy) (n : Notification) (now : ℕ) (router : NotificationRouter)
    → length (route_one policy n now router).1.journal ≡ length router.journal + 1
unfolding route_one note hold deliver
route_one-journal policy n now router = ground (
  arith,
  length-append router.journal ((n, Reason.was_silent) ∷ []),
  length-append router.journal ((n, Reason.held_for_digest) ∷ []),
  length-append router.journal ((n, Reason.in_quiet_hours) ∷ []),
  length-append router.journal ((n, Reason.rate_limited) ∷ []),
  length-append router.journal ((n, Reason.for_digest) ∷ []),
  length-append router.journal ((n, Reason.was_delivered) ∷ []),
)

-- Whatever its priority, a notification to a subscriber who was sent as many as the limit within the
-- last minute is not delivered, and it does not count against the limit.
pub route_one_limited :
    (policy : SubscriberPolicy) (n : Notification) (now : ℕ) (router : NotificationRouter)
    → leb policy.rate_limit_per_minute
        (length (recent minute now (or_empty (lookup n.subscriber router.hits))))
      ≡ true
    → ((route_one policy n now router).0 ≡ [])
      × ((route_one policy n now router).1.hits ≡ router.hits)
unfolding route_one allow note hold deliver
route_one_limited policy n now router h = (ground (arith, h), ground (arith, h))

append_nonempty : (ns : List Notification) (n : Notification) → is_empty (ns ++ n ∷ []) ≡ false
append_nonempty [] n = refl
append_nonempty (m ∷ ns) n = refl

flush_held_lem :
    (id subscriber : String) (now : ℕ) (held : List Notification) (router : NotificationRouter)
    → is_empty held ≡ false
    → ((flush_held id subscriber now held router).0 ≡ ok held)
      × (lookup subscriber (flush_held id subscriber now held router).1.digests ≡ some [])
unfolding note
flush_held_lem id subscriber now [] router h = cc
flush_held_lem id subscriber now (n ∷ held) router h =
    let delivered = deliver (summary_of id subscriber now (n ∷ held)) router in
    (
      refl,
      ground (
        arith,
        lookup-insert subscriber subscriber [] delivered.digests,
        str_eq_iff subscriber subscriber,
      ),
    )

-- A notification that is held for a registered subscriber comes back from the next flush, behind those
-- that were held before it and in their order, and after the flush none is held.
pub flush_digest-hold :
    (id : String) (now : ℕ) (n : Notification) (router : NotificationRouter)
    → has n.subscriber router.subscribers ≡ true
    → ((flush_digest id n.subscriber now (hold n router)).0
        ≡ ok (or_empty (lookup n.subscriber router.digests) ++ n ∷ []))
      × (lookup n.subscriber (flush_digest id n.subscriber now (hold n router)).1.digests ≡ some [])
unfolding flush_digest hold
flush_digest-hold id now n router known =
    let held : List Notification = or_empty (lookup n.subscriber router.digests) ++ n ∷ [] in
    let there = lookup-insert_self n.subscriber held router.digests in
    rw (known, there)
      (flush_held_lem id n.subscriber now held (hold n router)
        (append_nonempty (or_empty (lookup n.subscriber router.digests)) n))

module _ (new_id : String → String) (event_type message correlation_id : String) (now : ℕ) where
  route_each-journal :
      (priority : Priority) (subscribers : Dict SubscriberPolicy) (router : NotificationRouter)
      → length
          (route_each new_id event_type message correlation_id now priority subscribers
            router).1.journal
        ≡ length router.journal + length subscribers
  unfolding route_each
  route_each-journal priority [] router = omega arith
  route_each-journal priority ((s, policy) ∷ rest) router =
      let n = notification_for new_id event_type message correlation_id now priority s in
      omega (
        arith,
        route_one-journal policy n now router,
        route_each-journal priority rest (route_one policy n now router).1,
      )

  -- Routing an event leaves one entry in the journal for each subscriber, delivered or not, whatever
  -- the policies.
  pub route-journal :
      (router : NotificationRouter)
      → length (route new_id event_type message correlation_id now router).1.journal
        ≡ length router.journal + length router.subscribers
  unfolding route
  route-journal router =
      route_each-journal (event_priority event_type router) router.subscribers router
