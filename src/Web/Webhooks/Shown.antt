-- ===== src/Web/Webhooks/Shown.antt =====
-- What the caller of an accepted request has shown, in terms of the request and the surface's tables.
use text.Mathlib.Text.{starts_with}
use text.Mathlib.TextEquality.{starts_with_iff}
use Prim.Native.String.append
use Prim.Native.String.{◌++◌ as concat}
use xenopus.Prelude.{
  ℕ, ◌+◌, ◌≤◌, ◌<◌, ◌≡◌, ◌≢◌, refl, sym, ap, ◌∙◌, true, false, Option, none, some, String, ok,
  arith, List, length, str_eq_iff, Bool-cases, inl, inr, leb, ltb,
}
use xenopus.Prelude.Dict.{Dict, lookup}
use xenopus.Prelude.Strip.{strip, is_blank}
use xenopus.Prelude.Text.{join, drop_chars, take_chars}
use xenopus.Prelude.Window.{recent}
use xenopus.Persistence.Tasks.{TaskRecord, create}
use xenopus.Web.Webhooks.{
  string, Payload, Request, WebhookConfig, Surface, accepted, fresh, allow, minute, or_empty,
  timestamp_ok, signature_ok, adjudicate, correlation_of,
}
use xenopus.Web.Webhooks.Nonces.{Recorded, Recorded-not_fresh}
use xenopus.Web.Webhooks.Accepted.{adjudicate-Admitted}

concat-join : (s t : String) → concat s t ≡ join s t
unfolding join
concat-join String.[] t = append.nil t
concat-join (String.◌∷◌ c s) t = append.cons c s t ∙ ap (λ v. String.◌∷◌ c v) (concat-join s t)

split_prefix : (s : String) → starts_with s "sha256=" ≡ true → s ≡ join "sha256=" (drop_chars 7 s)
unfolding join drop_chars
split_prefix s h =
    let (rest, e) = (starts_with_iff s "sha256=").0 h in
    let whole : s ≡ join "sha256=" rest = sym e ∙ concat-join "sha256=" rest in rw whole refl

signature_ok-signed :
    {Body : Type 0} (hmac_hex : String → Body → String) (secret : String) (request : Request Body)
    → signature_ok hmac_hex secret request ≡ ok true
    → request.signature ≡ join "sha256=" (hmac_hex secret request.body)
unfolding signature_ok
signature_ok-signed hmac_hex secret request h =
    let presented = drop_chars 7 request.signature in
    let expected = hmac_hex secret request.body in
    let prefixed : starts_with request.signature "sha256=" ≡ true = ground arith in
    let same : presented ≡ expected = ground (arith, str_eq_iff presented expected) in
    split_prefix request.signature prefixed ∙ ap (join "sha256=") same

timestamp_ok-near :
    (timestamp : Option ℕ) (now skew : ℕ)
    → timestamp_ok timestamp now skew ≡ true
    → (stamped : ℕ) × (timestamp ≡ some stamped) × (now ≤ stamped + skew) × (stamped ≤ now + skew)
unfolding timestamp_ok
timestamp_ok-near none now skew h = cc
timestamp_ok-near (some stamped) now skew h = (stamped, refl, ground arith, ground arith)

allow-below :
    (limit : ℕ) (source : String) (now : ℕ) (hits : Dict (List ℕ))
    → (allow limit source now hits).0 ≡ true
    → length (recent minute now (or_empty (lookup source hits))) < limit
unfolding allow
allow-below limit source now hits h = ground arith

is_blank-ne : (s : String) → is_blank s ≡ false → s ≢ ""
is_blank-ne s h e = cc (rw e at h)

-- A nonce that passed was not recorded, or so long ago that its time to live had passed.
fresh-expired :
    (ttl : ℕ) (source nonce : String) (now at : ℕ) (seen : Dict (Dict ℕ))
    → (fresh ttl source nonce now seen).0 ≡ true
    → Recorded source nonce at seen
    → at + ttl < now
fresh-expired ttl source nonce now at seen h r = elim (Bool-cases (leb now (at + ttl))) [
  | inl soon ↦ absurd (cc (Recorded-not_fresh ttl source nonce at now seen (ground arith) r, h))
  | inr late ↦ ground arith
]

not_above : (n most : ℕ) → ltb most n ≡ false → n ≤ most
not_above n most h = ground arith

module _ {Body : Type 0} (body_size : Body → ℕ) (hmac_hex : String → Body → String)
    (loads : Body → Option Payload) where
  pub record Shown (cfg : WebhookConfig) (task_id : String) (now : ℕ) (request : Request Body)
      (s : Surface) (id : String) : Type 0 where
    pub secret : String
    pub known : lookup request.source cfg.secrets ≡ some secret
    pub within :
        length (recent minute now (or_empty (lookup request.source s.hits)))
        < cfg.rate_limit_per_minute
    pub small : body_size request.body ≤ cfg.max_body_bytes
    pub signed : request.signature ≡ join "sha256=" (hmac_hex secret request.body)
    pub stamped : ℕ
    pub stamp : request.timestamp ≡ some stamped
    pub not_old : now ≤ stamped + cfg.max_clock_skew
    pub not_ahead : stamped ≤ now + cfg.max_clock_skew
    pub payload : Payload
    pub parsed : loads request.body ≡ some payload
    pub typed : payload.type ≡ string "task.create"
    pub nonce : String
    pub named : payload.id ≡ string nonce
    pub nonempty : nonce ≢ ""
    pub unseen : (at : ℕ) → Recorded request.source nonce at s.seen → at + cfg.nonce_ttl < now
    pub title : String
    pub titled : payload.title ≡ string title
    pub nonblank : strip title ≢ ""
    pub task : TaskRecord
    pub created :
        (create task_id
          (take_chars 500 (strip title))
          (correlation_of request.source nonce)
          none
          none
          3
          now
          s.store).0
        ≡ ok task
    pub answered : task.task_id ≡ id

  -- A request is accepted only if its source has a secret and fewer than the limit of its requests
  -- were allowed within the minute, its body is within the bound, its signature is `sha256=` with the
  -- HMAC of the body under that secret, its timestamp is within the skew on either side, and its
  -- payload is a `task.create` with a title that is not blank and a nonce that is not empty and that
  -- this source did not show within the time to live. The task store then created the task whose id
  -- the answer has.
  pub adjudicate-Shown :
      (cfg : WebhookConfig) (task_id : String) (now : ℕ) (request : Request Body) (s : Surface)
      (id : String)
      → (adjudicate body_size hmac_hex loads cfg task_id now request s).0 ≡ ok (accepted id)
      → Shown cfg task_id now request s id
  adjudicate-Shown cfg task_id now request s id h =
      let a = adjudicate-Admitted body_size hmac_hex loads cfg task_id now request s id h in
      let (payload, parsed, typed, (nonce, named, nonempty, unseen, rest)) = a.holds in
      let (t, r, titled, nonblank, created, answered) = rest in
      let (stamped, stamp, not_old, not_ahead) =
        timestamp_ok-near request.timestamp now cfg.max_clock_skew a.timely in
      record {
        secret = a.secret;
        known = a.known;
        within = allow-below cfg.rate_limit_per_minute request.source now s.hits a.within;
        small = not_above (body_size request.body) cfg.max_body_bytes a.small;
        signed = signature_ok-signed hmac_hex a.secret request a.signed;
        stamped = stamped;
        stamp = stamp;
        not_old = not_old;
        not_ahead = not_ahead;
        payload = payload;
        parsed = parsed;
        typed = typed;
        nonce = nonce;
        named = named;
        nonempty = is_blank-ne nonce nonempty;
        unseen = λ at. fresh-expired cfg.nonce_ttl request.source nonce now at s.seen unseen;
        title = t;
        titled = titled;
        nonblank = is_blank-ne (strip t) nonblank;
        task = r;
        created = created;
        answered = answered;
      }
