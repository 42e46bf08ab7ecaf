-- ===== src/Web/Webhooks/Replay.antt =====
-- Replays: within its time to live a nonce is refused, and after it the same signed body is accepted
-- again.
use xenopus.Prelude.{
  ℕ, ◌+◌, ◌≤◌, ◌<◌, ◌≡◌, ◌≢◌, sym, ◌∙◌, ap, true, Option, none, some, List, [], ◌∷◌, String, ok,
  All,
}
use xenopus.Prelude.Strip.{strip}
use xenopus.Prelude.Text.{take_chars}
use xenopus.Persistence.Tasks.{TaskRecord, create}
use xenopus.Web.Webhooks.{
  string, Payload, Request, WebhookConfig, Surface, accepted, fresh, allow, timestamp_ok,
  signature_ok, adjudicate, receive, correlation_of,
}
use xenopus.Web.Webhooks.Nonces.{fresh-Recorded, Recorded, Recorded-not_fresh, fresh_again}
use xenopus.Web.Webhooks.Effects.{
  answer, answer-Recorded, answer-Accepted, journalled-parts, adjudicate-accepts,
}

-- Requests as they come in, each with the id for its task and the time of its arrival
abbrev pub Arrival : Type 0 → Type 0
Arrival Body = String × ℕ × Request Body

module _ {Body : Type 0} (body_size : Body → ℕ) (hmac_hex : String → Body → String)
    (loads : Body → Option Payload) (cfg : WebhookConfig) where
  unfoldable pub answer_all : List (Arrival Body) → Surface → Surface
  unfolding receive
  answer_all [] s = s
  answer_all ((task_id, now, request) ∷ rest) s =
      answer_all rest (answer body_size hmac_hex loads cfg task_id now request s).1

  answer_all-Recorded :
      (source nonce : String) (at : ℕ) (arrivals : List (Arrival Body)) (s : Surface)
      → All (λ a. a.1 ≤ at + cfg.nonce_ttl) arrivals
      → Recorded source nonce at s.seen
      → Recorded source nonce at (answer_all arrivals s).seen
  unfolding answer_all
  answer_all-Recorded source nonce at [] s h r = r
  answer_all-Recorded source nonce at ((task_id, now, request) ∷ rest) s h r =
      answer_all-Recorded source nonce at rest
        (answer body_size hmac_hex loads cfg task_id now request s).1 h.1
        (answer-Recorded body_size hmac_hex loads cfg source nonce at task_id now request s h.0 r)

  -- Within the time to live of a nonce, whatever requests come in between, in whatever order: once a
  -- body was accepted from a source, no request with that body from that source is accepted.
  pub replay-refused :
      (task_id : String) (at : ℕ) (request : Request Body) (s : Surface) (id : String)
      (arrivals : List (Arrival Body)) (task_id' : String) (now : ℕ) (replay : Request Body)
      (id' : String)
      → (answer body_size hmac_hex loads cfg task_id at request s).0 ≡ ok (accepted id)
      → All (λ a. a.1 ≤ at + cfg.nonce_ttl) arrivals
      → now ≤ at + cfg.nonce_ttl
      → replay.source ≡ request.source
      → replay.body ≡ request.body
      → (answer body_size hmac_hex loads cfg task_id' now replay
          (answer_all arrivals (answer body_size hmac_hex loads cfg task_id at request s).1)).0
        ≢ ok (accepted id')
  replay-refused task_id at request s id arrivals task_id' now replay id' h early soon from same k =
      let first = answer body_size hmac_hex loads cfg task_id at request s in
      let s' : Surface = answer_all arrivals first.1 in
      let a = answer-Accepted body_size hmac_hex loads cfg task_id at request s id h in
      let b = answer-Accepted body_size hmac_hex loads cfg task_id' now replay s' id' k in
      let loaded : some b.payload ≡ some a.payload = sym b.parsed ∙ ap loads same ∙ a.parsed in
      let nonce_same : b.nonce ≡ a.nonce = cc (loaded, a.named, b.named) in
      let recorded = fresh-Recorded cfg.nonce_ttl request.source a.nonce at s.seen a.unseen in
      let kept =
        answer_all-Recorded request.source a.nonce at arrivals first.1 early (rw a.kept recorded) in
      let stale =
        Recorded-not_fresh cfg.nonce_ttl request.source a.nonce at now s'.seen soon kept in
      cc (rw (from, nonce_same) at b.unseen)

  -- After the time to live of its nonce, the body of an accepted request is accepted again with the
  -- same signature and a new timestamp, which is not signed: when the rate allows it and the store
  -- takes a task of this correlation, as it does with another task id.
  pub replay-after_ttl :
      (task_id : String) (at : ℕ) (request : Request Body) (s : Surface) (id : String)
      (task_id' : String) (later : ℕ) (stamp : Option ℕ) (payload : Payload) (nonce t : String)
      (r : TaskRecord)
      → (answer body_size hmac_hex loads cfg task_id at request s).0 ≡ ok (accepted id)
      → loads request.body ≡ some payload
      → payload.id ≡ string nonce
      → payload.title ≡ string t
      → at + cfg.nonce_ttl < later
      → timestamp_ok stamp later cfg.max_clock_skew ≡ true
      → (allow cfg.rate_limit_per_minute request.source later
          (answer body_size hmac_hex loads cfg task_id at request s).1.hits).0
        ≡ true
      → (create task_id'
          (take_chars 500 (strip t))
          (correlation_of request.source nonce)
          none
          none
          3
          later
          (answer body_size hmac_hex loads cfg task_id at request s).1.store).0
        ≡ ok r
      → (answer body_size hmac_hex loads cfg task_id' later
          (record request { timestamp = stamp })
          (answer body_size hmac_hex loads cfg task_id at request s).1).0
        ≡ ok (accepted r.task_id)
  unfolding receive signature_ok
  replay-after_ttl task_id at request s id task_id' later stamp payload nonce t r h parsed named
        titled late timely within created =
      let first = answer body_size hmac_hex loads cfg task_id at request s in
      let a = answer-Accepted body_size hmac_hex loads cfg task_id at request s id h in
      let loaded : some payload ≡ some a.payload = sym parsed ∙ a.parsed in
      let nonce_same : a.nonce ≡ nonce = cc (loaded, a.named, named) in
      let title_same : a.title ≡ t = cc (loaded, a.titled, titled) in
      let again : (fresh cfg.nonce_ttl request.source nonce later first.1.seen).0 ≡ true =
        rw a.kept (
          rw (sym nonce_same)
            (fresh_again cfg.nonce_ttl request.source a.nonce at later s.seen a.unseen late)) in
      let replay : Request Body = record request { timestamp = stamp } in
      let (accepts, _) =
        adjudicate-accepts body_size hmac_hex loads cfg task_id' later replay first.1 a.secret nonce
          t payload r a.known within a.small a.signed timely parsed (cc (loaded, a.typed)) named
          (rw (sym nonce_same) a.nonempty) again titled (rw (sym title_same) a.nonblank) created in
      let (same, _, _, _) =
        journalled-parts body_size hmac_hex loads cfg request.source
          (adjudicate body_size hmac_hex loads cfg task_id' later replay first.1) in
      same ∙ accepts
