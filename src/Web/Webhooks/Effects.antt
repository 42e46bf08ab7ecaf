-- ===== src/Web/Webhooks/Effects.antt =====
-- What a request does to the registry of nonces, and what is accepted.
use xenopus.Prelude.{
  ℕ, ◌+◌, ◌≤◌, ◌≡◌, refl, sym, ◌∙◌, ◌⊎◌, Bool, true, false, Option, none, some, String, Result, ok,
  err, arith, ltb, Bool-cases, Option-cases, inl, inr,
}
use xenopus.Prelude.Dict.{Dict, lookup}
use xenopus.Prelude.Strip.{strip, is_blank}
use xenopus.Prelude.Text.{take_chars}
use xenopus.Persistence.Tasks.{TaskRecord, TaskStore, TaskError, create}
use xenopus.Web.Webhooks
use xenopus.Web.Webhooks.{
  Field, string, Attempt, if_allowed_type, if_signed, is_task_create, receive, journalled, Payload,
  Request, WebhookConfig, Surface, Crash, Verdict, accepted, fresh, allow, timestamp_ok,
  signature_ok, with_nonce, with_payload, authenticate, adjudicate, correlation_of, made, made_with,
  create_task, if_fresh,
}
use xenopus.Web.Webhooks.Accepted.{adjudicate-Admitted}
use xenopus.Web.Webhooks.Nonces.{Recorded, Recorded-fresh}

-- What is kept whatever `adjudicate` does with the nonces
made-seen : (m : Result TaskError TaskRecord × TaskStore) (s : Surface) → (made m s).1.seen ≡ s.seen
made-seen (ok r, store) s = refl
made-seen (err e, store) s = refl

create_task-seen :
    (f : Field) (task_id source nonce : String) (now : ℕ) (s : Surface)
    → (create_task f task_id source nonce now s).1.seen ≡ s.seen
create_task-seen (string t) task_id source nonce now s = elim (Bool-cases (is_blank (strip t))) [
  | inl e ↦ rw e refl
  | inr e ↦ rw e (made-seen _ s)
]
create_task-seen _ task_id source nonce now s = refl

if_fresh-seen :
    (m : Bool × Dict (Dict ℕ)) (f : Surface → Attempt) (s : Surface)
    → ((s' : Surface) → (f s').1.seen ≡ s'.seen)
    → (if_fresh m f s).1.seen ≡ m.1
if_fresh-seen (true, seen) f s h = h (record s { seen = seen })
if_fresh-seen (false, seen) f s h = refl

-- A request leaves the nonces as they were, or asks about one nonce of its source.
abbrev Asks : WebhookConfig → String → ℕ → Surface → Attempt → Type 0
Asks cfg source now s a =
    (a.1.seen ≡ s.seen)
    ⊎ ((nonce : String) × (a.1.seen ≡ (fresh cfg.nonce_ttl source nonce now s.seen).1))

with_nonce-Asks :
    (cfg : WebhookConfig) (payload : Payload) (task_id source : String) (now : ℕ) (f : Field)
    (s : Surface)
    → Asks cfg source now s (with_nonce cfg payload task_id source now f s)
unfolding with_nonce
with_nonce-Asks cfg payload task_id source now (string nonce) s =
    elim (Bool-cases (is_blank nonce)) [
      | inl e ↦ rw e (inl refl)
      | inr e ↦ rw e (
          inr (
            nonce,
            if_fresh-seen (fresh cfg.nonce_ttl source nonce now s.seen) _ s
                (λ s'. create_task-seen payload.title task_id source nonce now s'),
          ))
    ]
with_nonce-Asks cfg payload task_id source now Webhooks.scalar s = inl refl
with_nonce-Asks cfg payload task_id source now Webhooks.container s = inl refl

if_allowed_type-ind :
    (Q : Attempt → Type 0) (b : Result Crash Bool) (next : Attempt) (s : Surface)
    → ((r : Result Crash Verdict) → Q (r, s))
    → Q next
    → Q (if_allowed_type b next s)
if_allowed_type-ind Q (err e) next s h k = h (err e)
if_allowed_type-ind Q (ok false) next s h k = h _
if_allowed_type-ind Q (ok true) next s h k = k

if_signed-ind :
    (Q : Attempt → Type 0) (b : Result Crash Bool) (next : Attempt) (s : Surface)
    → ((r : Result Crash Verdict) → Q (r, s))
    → Q next
    → Q (if_signed b next s)
if_signed-ind Q (err e) next s h k = h (err e)
if_signed-ind Q (ok false) next s h k = h _
if_signed-ind Q (ok true) next s h k = k

with_payload-Asks :
    (cfg : WebhookConfig) (task_id source : String) (now : ℕ) (loaded : Option Payload)
    (s : Surface)
    → Asks cfg source now s (with_payload cfg task_id source now loaded s)
unfolding with_payload
with_payload-Asks cfg task_id source now none s = inl refl
with_payload-Asks cfg task_id source now (some payload) s =
    if_allowed_type-ind (Asks cfg source now s) (is_task_create payload.type) _ s (λ r. inl refl)
      (with_nonce-Asks cfg payload task_id source now payload.id s)

-- The answer to a request that has shown everything, and the surface that it leaves
module _ {Body : Type 0} (body_size : Body → ℕ) (hmac_hex : String → Body → String)
    (loads : Body → Option Payload) (cfg : WebhookConfig) where
  pub adjudicate-accepts :
      (task_id : String) (now : ℕ) (request : Request Body) (s : Surface) (secret nonce t : String)
      (payload : Payload) (r : TaskRecord)
      → lookup request.source cfg.secrets ≡ some secret
      → (allow cfg.rate_limit_per_minute request.source now s.hits).0 ≡ true
      → ltb cfg.max_body_bytes (body_size request.body) ≡ false
      → signature_ok hmac_hex secret request ≡ ok true
      → timestamp_ok request.timestamp now cfg.max_clock_skew ≡ true
      → loads request.body ≡ some payload
      → payload.type ≡ string "task.create"
      → payload.id ≡ string nonce
      → is_blank nonce ≡ false
      → (fresh cfg.nonce_ttl request.source nonce now s.seen).0 ≡ true
      → payload.title ≡ string t
      → is_blank (strip t) ≡ false
      → (create task_id
          (take_chars 500 (strip t))
          (correlation_of request.source nonce)
          none
          none
          3
          now
          s.store).0
        ≡ ok r
      → ((adjudicate body_size hmac_hex loads cfg task_id now request s).0
          ≡ ok (accepted r.task_id))
        × ((adjudicate body_size hmac_hex loads cfg task_id now request s).1.seen
            ≡ (fresh cfg.nonce_ttl request.source nonce now s.seen).1)
  unfolding adjudicate authenticate with_payload with_nonce
  adjudicate-accepts task_id now request s secret nonce t payload r known within small signed timely
        parsed typed named nonempty unseen titled nonblank created =
      ground arith

  authenticate-Asks :
      (secret task_id : String) (now : ℕ) (request : Request Body) (s : Surface)
      → Asks cfg request.source now s
          (authenticate body_size hmac_hex loads cfg secret task_id now request s)
  unfolding authenticate
  authenticate-Asks secret task_id now request s =
      elim (Bool-cases (ltb cfg.max_body_bytes (body_size request.body))) [
        | inl e ↦ rw e (inl refl)
        | inr e ↦ rw e (
            if_signed-ind (Asks cfg request.source now s) (signature_ok hmac_hex secret request) _ s
              (λ r. inl refl)
              (elim (Bool-cases (timestamp_ok request.timestamp now cfg.max_clock_skew)) [
                | inl f ↦
                    rw f (with_payload-Asks cfg task_id request.source now (loads request.body) s)
                | inr f ↦ rw f (inl refl)
              ]))
      ]

  pub adjudicate-Asks :
      (task_id : String) (now : ℕ) (request : Request Body) (s : Surface)
      → Asks cfg request.source now s
          (adjudicate body_size hmac_hex loads cfg task_id now request s)
  unfolding adjudicate
  adjudicate-Asks task_id now request s = elim (Option-cases (lookup request.source cfg.secrets)) [
    | inl e ↦ rw (e, adjudicate) (inl refl)
    | inr (secret, e) ↦
        elim (Bool-cases (allow cfg.rate_limit_per_minute request.source now s.hits).0) [
          | inl f ↦
              rw (e, f, adjudicate)
                (authenticate-Asks secret task_id now request (record s {
                  hits = (allow cfg.rate_limit_per_minute request.source now s.hits).1;
                }))
          | inr f ↦ rw (e, f, adjudicate) (inl refl)
        ]
  ]

  abbrev pub answer : String → ℕ → Request Body → Surface → Attempt
  answer task_id now request s = receive body_size hmac_hex loads cfg task_id now request s

  pub journalled-parts :
      (source : String) (a : Attempt)
      → ((journalled source a).0 ≡ a.0)
        × ((journalled source a).1.seen ≡ a.1.seen)
        × ((journalled source a).1.hits ≡ a.1.hits)
        × ((journalled source a).1.store ≡ a.1.store)
  journalled-parts source (ok v, s) = (refl, refl, refl, refl)
  journalled-parts source (err e, s) = (refl, refl, refl, refl)

  -- What is recorded stays so, as long as the requests come within its time to live.
  pub answer-Recorded :
      (source nonce : String) (at : ℕ) (task_id : String) (now : ℕ) (request : Request Body)
      (s : Surface)
      → now ≤ at + cfg.nonce_ttl
      → Recorded source nonce at s.seen
      → Recorded source nonce at (answer task_id now request s).1.seen
  unfolding receive
  answer-Recorded source nonce at task_id now request s h r =
      let result = adjudicate body_size hmac_hex loads cfg task_id now request s in
      let (_, seen, _, _) = journalled-parts request.source result in
      rw seen (elim (adjudicate-Asks task_id now request s) [
        | inl e ↦ rw e r
        | inr (n, e) ↦
            rw e (Recorded-fresh cfg.nonce_ttl source nonce at request.source n now s.seen h r)
      ])

  -- What an accepted request has shown behind its signature, and the nonces that it leaves
  pub record Accepted (at : ℕ) (request : Request Body) (s after : Surface) : Type 0 where
    pub secret : String
    pub known : lookup request.source cfg.secrets ≡ some secret
    pub small : ltb cfg.max_body_bytes (body_size request.body) ≡ false
    pub signed : signature_ok hmac_hex secret request ≡ ok true
    pub payload : Payload
    pub parsed : loads request.body ≡ some payload
    pub typed : payload.type ≡ string "task.create"
    pub nonce : String
    pub named : payload.id ≡ string nonce
    pub nonempty : is_blank nonce ≡ false
    pub unseen : (fresh cfg.nonce_ttl request.source nonce at s.seen).0 ≡ true
    pub title : String
    pub titled : payload.title ≡ string title
    pub nonblank : is_blank (strip title) ≡ false
    pub kept : after.seen ≡ (fresh cfg.nonce_ttl request.source nonce at s.seen).1

  pub answer-Accepted :
      (task_id : String) (now : ℕ) (request : Request Body) (s : Surface) (id : String)
      → (answer task_id now request s).0 ≡ ok (accepted id)
      → Accepted now request s (answer task_id now request s).1
  unfolding receive
  answer-Accepted task_id now request s id h =
      let result = adjudicate body_size hmac_hex loads cfg task_id now request s in
      let (same, seen, _, _) = journalled-parts request.source result in
      let a =
        adjudicate-Admitted body_size hmac_hex loads cfg task_id now request s id (sym same ∙ h) in
      let (payload, parsed, typed, (nonce, named, nonempty, unseen, rest)) = a.holds in
      let (t, r, titled, nonblank, created, _) = rest in
      let (_, kept) =
        adjudicate-accepts task_id now request s a.secret nonce t payload r a.known a.within a.small
          a.signed a.timely parsed typed named nonempty unseen titled nonblank created in
      record {
        secret = a.secret;
        known = a.known;
        small = a.small;
        signed = a.signed;
        payload = payload;
        parsed = parsed;
        typed = typed;
        nonce = nonce;
        named = named;
        nonempty = nonempty;
        unseen = unseen;
        title = t;
        titled = titled;
        nonblank = nonblank;
        kept = seen ∙ kept;
      }
