-- ===== src/Web/Webhooks/Accepted.antt =====
-- What a request has shown when it is accepted.
use xenopus.Prelude.{
  ℕ, ◌≡◌, refl, Bool, true, false, Option, none, some, String, Result, ok, err, str_eq_iff, arith,
  ltb, Bool-cases, Option-cases, inl, inr,
}
use xenopus.Prelude.Dict.{Dict, lookup}
use xenopus.Prelude.Strip.{strip, is_blank}
use xenopus.Prelude.Text.{take_chars}
use xenopus.Persistence.Tasks.{TaskRecord, TaskStore, TaskError, create}
use xenopus.Web.Webhooks.{
  Field, string, scalar, container, Payload, Request, WebhookConfig, Surface, Crash, accepted,
  Attempt, fresh, allow, timestamp_ok, signature_ok, made, create_task, if_fresh, with_nonce,
  with_payload, authenticate, adjudicate, correlation_of, if_signed, if_allowed_type,
  is_task_create,
}

-- The task that an accepted request made
abbrev pub Creates : Field → String → String → String → ℕ → TaskStore → String → Type 0
Creates title task_id source nonce now store id =
    (t : String) × (r : TaskRecord) × (title ≡ string t)
    × (is_blank (strip t) ≡ false)
    × ((create task_id (take_chars 500 (strip t)) (correlation_of source nonce) none none 3 now
          store).0
        ≡ ok r)
    × (r.task_id ≡ id)

made-accepted :
    (m : Result TaskError TaskRecord × TaskStore) (s : Surface) (id : String)
    → (made m s).0 ≡ ok (accepted id)
    → (r : TaskRecord) × (m.0 ≡ ok r) × (r.task_id ≡ id)
made-accepted (ok r, store) s id h = (r, refl, ground arith)
made-accepted (err e, store) s id h = cc

create_task-accepted :
    (title : Field) (task_id source nonce : String) (now : ℕ) (s : Surface) (id : String)
    → (create_task title task_id source nonce now s).0 ≡ ok (accepted id)
    → Creates title task_id source nonce now s.store id
create_task-accepted (string t) task_id source nonce now s id h =
    elim (Bool-cases (is_blank (strip t))) [
      | inl e ↦ cc (rw e at h)
      | inr e ↦
          let (r, made_it, same) = made-accepted _ s id (rw e at h) in
          (t, r, refl, e, made_it, same)
    ]
create_task-accepted scalar task_id source nonce now s id h = cc
create_task-accepted container task_id source nonce now s id h = cc

if_fresh-accepted :
    (m : Bool × Dict (Dict ℕ)) (f : Surface → Attempt) (s : Surface) (id : String)
    → (if_fresh m f s).0 ≡ ok (accepted id)
    → (m.0 ≡ true) × ((f (record s { seen = m.1 })).0 ≡ ok (accepted id))
if_fresh-accepted (true, seen) f s id h = (refl, h)
if_fresh-accepted (false, seen) f s id h = cc

-- The nonce of an accepted request
abbrev pub Names : WebhookConfig → Payload → String → String → ℕ → Field → Surface → String → Type 0
Names cfg payload task_id source now f s id =
    (nonce : String) × (f ≡ string nonce)
    × (is_blank nonce ≡ false)
    × ((fresh cfg.nonce_ttl source nonce now s.seen).0 ≡ true)
    × Creates payload.title task_id source nonce now s.store id

with_nonce-accepted :
    (cfg : WebhookConfig) (payload : Payload) (task_id source : String) (now : ℕ) (f : Field)
    (s : Surface) (id : String)
    → (with_nonce cfg payload task_id source now f s).0 ≡ ok (accepted id)
    → Names cfg payload task_id source now f s id
unfolding with_nonce
with_nonce-accepted cfg payload task_id source now (string nonce) s id h =
    elim (Bool-cases (is_blank nonce)) [
      | inl e ↦ cc (rw e at h)
      | inr e ↦
          let (is_fresh, rest) =
            if_fresh-accepted (fresh cfg.nonce_ttl source nonce now s.seen) _ s id (rw e at h) in
          (
            nonce,
            refl,
            e,
            is_fresh,
            create_task-accepted payload.title task_id source nonce now
                (record s { seen = (fresh cfg.nonce_ttl source nonce now s.seen).1 }) id rest,
          )
    ]
with_nonce-accepted cfg payload task_id source now scalar s id h = cc
with_nonce-accepted cfg payload task_id source now container s id h = cc

if_allowed_type-accepted :
    (b : Result Crash Bool) (next : Attempt) (s : Surface) (id : String)
    → (if_allowed_type b next s).0 ≡ ok (accepted id)
    → (b ≡ ok true) × (next.0 ≡ ok (accepted id))
if_allowed_type-accepted (ok true) next s id h = (refl, h)
if_allowed_type-accepted (ok false) next s id h = cc
if_allowed_type-accepted (err e) next s id h = cc

task_create-typed : (f : Field) → is_task_create f ≡ ok true → f ≡ string "task.create"
task_create-typed (string t) h = ground (arith, str_eq_iff t "task.create")
task_create-typed scalar h = cc
task_create-typed container h = cc

-- The payload of an accepted request
abbrev pub Holds : WebhookConfig → String → String → ℕ → Option Payload → Surface → String → Type 0
Holds cfg task_id source now loaded s id =
    (payload : Payload) × (loaded ≡ some payload)
    × (payload.type ≡ string "task.create")
    × Names cfg payload task_id source now payload.id s id

with_payload-accepted :
    (cfg : WebhookConfig) (task_id source : String) (now : ℕ) (loaded : Option Payload)
    (s : Surface) (id : String)
    → (with_payload cfg task_id source now loaded s).0 ≡ ok (accepted id)
    → Holds cfg task_id source now loaded s id
unfolding with_payload
with_payload-accepted cfg task_id source now none s id h = cc
with_payload-accepted cfg task_id source now (some payload) s id h =
    let (typed, rest) = if_allowed_type-accepted (is_task_create payload.type) _ s id h in
    (
      payload,
      refl,
      task_create-typed payload.type typed,
      with_nonce-accepted cfg payload task_id source now payload.id s id rest,
    )

if_signed-accepted :
    (b : Result Crash Bool) (next : Attempt) (s : Surface) (id : String)
    → (if_signed b next s).0 ≡ ok (accepted id)
    → (b ≡ ok true) × (next.0 ≡ ok (accepted id))
if_signed-accepted (ok true) next s id h = (refl, h)
if_signed-accepted (ok false) next s id h = cc
if_signed-accepted (err e) next s id h = cc

module _ {Body : Type 0} (body_size : Body → ℕ) (hmac_hex : String → Body → String)
    (loads : Body → Option Payload) where
  -- What the caller of an accepted request has shown, and what became of it
  pub record Admitted (cfg : WebhookConfig) (task_id : String) (now : ℕ) (request : Request Body)
      (s : Surface) (id : String) : Type 0 where
    pub secret : String
    pub known : lookup request.source cfg.secrets ≡ some secret
    pub within : (allow cfg.rate_limit_per_minute request.source now s.hits).0 ≡ true
    pub small : ltb cfg.max_body_bytes (body_size request.body) ≡ false
    pub signed : signature_ok hmac_hex secret request ≡ ok true
    pub timely : timestamp_ok request.timestamp now cfg.max_clock_skew ≡ true
    pub holds : Holds cfg task_id request.source now (loads request.body) s id

  -- The checks behind the rate limit
  authenticate-accepted :
      (cfg : WebhookConfig) (secret task_id : String) (now : ℕ) (request : Request Body)
      (s : Surface) (id : String)
      → (authenticate body_size hmac_hex loads cfg secret task_id now request s).0
        ≡ ok (accepted id)
      → (ltb cfg.max_body_bytes (body_size request.body) ≡ false)
        × (signature_ok hmac_hex secret request ≡ ok true)
        × (timestamp_ok request.timestamp now cfg.max_clock_skew ≡ true)
        × Holds cfg task_id request.source now (loads request.body) s id
  unfolding authenticate
  authenticate-accepted cfg secret task_id now request s id h =
      elim (Bool-cases (ltb cfg.max_body_bytes (body_size request.body))) [
        | inl e ↦ cc (rw e at h)
        | inr small ↦
            let (signed, rest) =
              if_signed-accepted (signature_ok hmac_hex secret request) _ s id (rw small at h) in
            elim (Bool-cases (timestamp_ok request.timestamp now cfg.max_clock_skew)) [
              | inl timely ↦ (
                small,
                signed,
                timely,
                with_payload-accepted cfg task_id request.source now (loads request.body) s id
                    (rw timely at rest),
              )
              | inr e ↦ cc (rw e at rest)
            ]
      ]

  -- Each check answers as it must for an accepted request.
  pub adjudicate-Admitted :
      (cfg : WebhookConfig) (task_id : String) (now : ℕ) (request : Request Body) (s : Surface)
      (id : String)
      → (adjudicate body_size hmac_hex loads cfg task_id now request s).0 ≡ ok (accepted id)
      → Admitted cfg task_id now request s id
  unfolding adjudicate
  adjudicate-Admitted cfg task_id now request s id h =
      elim (Option-cases (lookup request.source cfg.secrets)) [
        | inl e ↦ cc (rw (e, adjudicate) at h)
        | inr (secret, e) ↦
            elim (Bool-cases (allow cfg.rate_limit_per_minute request.source now s.hits).0) [
              | inl within ↦
                  let (small, signed, timely, holds) =
                    authenticate-accepted cfg secret task_id now request
                      (record s {
                        hits = (allow cfg.rate_limit_per_minute request.source now s.hits).1;
                      })
                      id (rw (e, within, adjudicate) at h) in
                  record {
                    secret = secret;
                    known = e;
                    within = within;
                    small = small;
                    signed = signed;
                    timely = timely;
                    holds = holds;
                  }
              | inr over ↦ cc (rw (e, over, adjudicate) at h)
            ]
      ]
