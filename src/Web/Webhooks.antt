-- ===== src/Web/Webhooks.antt =====
-- src/xenopus/web/webhooks.py: the checks that an inbound request passes before it becomes a task.
-- HMAC-SHA256 and `json.loads` are parameters, and so is the type of raw bodies. Times are numbers of
-- microseconds; a timestamp header that is missing or no number is `none`.
pub mod Accepted
pub mod Shown
pub mod Nonces
pub mod Rates
pub mod Effects
pub mod Replay
mod Tests
use text.Mathlib.Text.{starts_with}
use xenopus.Prelude.{
  ℕ, ◌+◌, ◌-◌, Bool, true, false, not, ◌&&◌, ◌||◌, Option, none, some, List, [], ◌∷◌, ◌++◌, String,
  str_eq, Result, ok, err, ltb, leb, length, filter, if◌then◌else◌,
}
use xenopus.Prelude.Dict.{Dict, lookup, insert, has}
use xenopus.Prelude.Strip.{strip, is_blank}
use xenopus.Prelude.Text.{join, drop_chars, take_chars, is_ascii}
use xenopus.Prelude.Window.{recent}
use xenopus.Persistence.Tasks.{TaskRecord, TaskStore, TaskError, create}

pub data Reason : Type 0 where
  unknown_source rate_limited body_too_large bad_signature stale_timestamp non_json : Reason
  event_type_not_allowed missing_nonce replayed_nonce invalid_payload : Reason

-- `_Verdict`, with the id of the task that was made
pub data Verdict : Type 0 where
  rejected : Reason → Verdict
  accepted : String → Verdict

-- What escapes from `receive`: `compare_digest` refuses texts that are not ASCII, a list or an object
-- is not hashable, and the task store raises.
pub data Crash : Type 0 where
  not_ascii unhashable : Crash
  task_error : TaskError → Crash

-- A member of the JSON object: a text, another scalar (or absent), or a list or an object
pub data Field : Type 0 where
  string : String → Field
  scalar container : Field

pub record Payload : Type 0 where
  pub type : Field
  pub id : Field
  pub title : Field

pub record Request (Body : Type 0) : Type 0 where
  pub source : String
  pub signature : String
  pub timestamp : Option ℕ
  pub body : Body

pub record WebhookConfig : Type 0 where
  pub secrets : Dict String
  pub max_clock_skew : ℕ
  pub max_body_bytes : ℕ
  pub rate_limit_per_minute : ℕ
  pub nonce_ttl : ℕ

-- `seen` is that of `_NonceRegistry` and `hits` that of `_RateBucket`.
pub record Surface : Type 0 where
  pub seen : Dict (Dict ℕ)
  pub hits : Dict (List ℕ)
  pub store : TaskStore
  pub journal : List (String × Verdict)

abbrev pub minute : ℕ
minute = 60000000

abbrev pub or_empty : {A : Type 0} → Option (List A) → List A
or_empty none = []
or_empty (some xs) = xs

-- The entries that the sweep of `fresh` keeps
unfoldable pub unexpired : ℕ → ℕ → Dict ℕ → Dict ℕ
unexpired ttl now d = filter (λ e. not (ltb ttl (now - e.1))) d

-- `_NonceRegistry.fresh`
unfoldable pub fresh : ℕ → String → String → ℕ → Dict (Dict ℕ) → Bool × Dict (Dict ℕ)
unfolding unexpired lookup insert has
fresh ttl source nonce now seen =
    let kept : Dict ℕ = unexpired ttl now (or_empty (lookup source seen)) in
    if has nonce kept
    then (false, insert source kept seen)
    else (true, insert source (insert nonce now kept) seen)

-- `_RateBucket.allow`
unfoldable pub allow : ℕ → String → ℕ → Dict (List ℕ) → Bool × Dict (List ℕ)
unfolding recent lookup insert
allow limit source now hits =
    let kept : List ℕ = recent minute now (or_empty (lookup source hits)) in
    if leb limit (length kept)
    then (false, insert source kept hits)
    else (true, insert source (kept ++ now ∷ []) hits)

abbrev is_task_create : Field → Result Crash Bool
is_task_create (string t) = ok (str_eq t "task.create")
is_task_create scalar = ok false
is_task_create container = err unhashable

-- `abs(now - stamped) <= skew`
unfoldable pub timestamp_ok : Option ℕ → ℕ → ℕ → Bool
timestamp_ok none now skew = false
timestamp_ok (some stamped) now skew = leb ((now - stamped) + (stamped - now)) skew

-- `hmac.compare_digest` on texts
abbrev pub compare_digest : String → String → Result Crash Bool
compare_digest a b = if is_ascii a && is_ascii b then ok (str_eq a b) else err not_ascii

abbrev pub Attempt : Type 0
Attempt = Result Crash Verdict × Surface

abbrev pub reject : Reason → Surface → Attempt
reject reason s = (ok (rejected reason), s)

abbrev pub made : Result TaskError TaskRecord × TaskStore → Surface → Attempt
made (ok r, store) s = (ok (accepted r.task_id), record s { store = store })
made (err e, store) s = (err (task_error e), record s { store = store })

abbrev pub correlation_of : String → String → String
correlation_of source nonce = join "webhook:" (join source (join ":" nonce))

abbrev pub made_with : String → String → String → String → ℕ → Surface → Attempt
made_with title task_id source nonce now s =
    if is_blank (strip title)
    then reject invalid_payload s
    else made
        (create task_id (take_chars 500 (strip title)) (correlation_of source nonce) none none 3 now
          s.store)
        s

-- `_create_task`, and what `_adjudicate` makes of its answer
abbrev pub create_task : Field → String → String → String → ℕ → Surface → Attempt
create_task (string title) task_id source nonce now s = made_with title task_id source nonce now s
create_task _ task_id source nonce now s = reject invalid_payload s

abbrev pub if_fresh : Bool × Dict (Dict ℕ) → (Surface → Attempt) → Surface → Attempt
if_fresh (false, seen) f s = reject replayed_nonce (record s { seen = seen })
if_fresh (true, seen) f s = f (record s { seen = seen })

-- The nonce: a text that is not empty and was not seen before
unfoldable pub with_nonce :
    WebhookConfig → Payload → String → String → ℕ → Field → Surface → Attempt
with_nonce cfg payload task_id source now (string nonce) s =
    if is_blank nonce
    then reject missing_nonce s
    else if_fresh (fresh cfg.nonce_ttl source nonce now s.seen)
        (λ s'. create_task payload.title task_id source nonce now s') s
with_nonce cfg payload task_id source now _ s = reject missing_nonce s

abbrev pub if_allowed_type : Result Crash Bool → Attempt → Surface → Attempt
if_allowed_type (err e) next s = (err e, s)
if_allowed_type (ok false) next s = reject event_type_not_allowed s
if_allowed_type (ok true) next s = next

-- The checks behind the timestamp, on what `json.loads` returned: `none` for no JSON or no object
unfoldable pub with_payload :
    WebhookConfig → String → String → ℕ → Option Payload → Surface → Attempt
with_payload cfg task_id source now none s = reject non_json s
with_payload cfg task_id source now (some payload) s =
    if_allowed_type (is_task_create payload.type)
      (with_nonce cfg payload task_id source now payload.id s) s

unfoldable pub signature_ok :
    {Body : Type 0} → (String → Body → String) → String → Request Body → Result Crash Bool
signature_ok hmac_hex secret request =
    if starts_with request.signature "sha256="
    then compare_digest (drop_chars 7 request.signature) (hmac_hex secret request.body)
    else ok false

abbrev pub if_signed : Result Crash Bool → Attempt → Surface → Attempt
if_signed (err e) next s = (err e, s)
if_signed (ok false) next s = reject bad_signature s
if_signed (ok true) next s = next

abbrev pub journalled : String → Attempt → Attempt
journalled source (ok v, s) = (ok v, record s { journal = s.journal ++ (source, v) ∷ [] })
journalled source (err e, s) = (err e, s)

module _ {Body : Type 0} (body_size : Body → ℕ) (hmac_hex : String → Body → String)
    (loads : Body → Option Payload) where
  -- The checks behind the rate limit
  unfoldable pub authenticate :
      WebhookConfig → String → String → ℕ → Request Body → Surface → Attempt
  unfolding signature_ok timestamp_ok
  authenticate cfg secret task_id now request s =
      if ltb cfg.max_body_bytes (body_size request.body)
      then reject body_too_large s
      else if_signed (signature_ok hmac_hex secret request)
          (if timestamp_ok request.timestamp now cfg.max_clock_skew
            then with_payload cfg task_id request.source now (loads request.body) s
            else reject stale_timestamp s)
          s

  -- `_adjudicate`; `task_id` is the id that the task would get.
  unfoldable pub adjudicate : WebhookConfig → String → ℕ → Request Body → Surface → Attempt
  unfolding lookup
  adjudicate cfg task_id now request s = elim (lookup request.source cfg.secrets) [
    | none ↦ reject unknown_source s
    | some secret ↦
        let (allowed, hits) = allow cfg.rate_limit_per_minute request.source now s.hits in
        let s' : Surface = record s { hits = hits } in
        if allowed then authenticate cfg secret task_id now request s' else reject rate_limited s'
  ]

  -- `receive`: the verdict is journalled, unless an exception escapes.
  unfoldable pub receive : WebhookConfig → String → ℕ → Request Body → Surface → Attempt
  unfolding adjudicate
  receive cfg task_id now request s =
      journalled request.source (adjudicate cfg task_id now request s)

-- `_status`, and 202 for an accepted request
unfoldable pub status : Verdict → ℕ
status (accepted task_id) = 202
status (rejected unknown_source) = 404
status (rejected rate_limited) = 429
status (rejected body_too_large) = 413
status (rejected bad_signature) = 401
status (rejected stale_timestamp) = 401
status (rejected non_json) = 415
status (rejected missing_nonce) = 400
status (rejected invalid_payload) = 400
status (rejected event_type_not_allowed) = 400
status (rejected replayed_nonce) = 409
