-- ===== src/Persistence/Sessions.antt =====
-- src/xenopus/persistence/sessions.py: sessions with their turns. Both tables are lists of rows, the
-- sessions newest first and the turns in the order of their rowids. `uuid4` and the clock give
-- arguments of the calls.
pub mod Lineages
pub mod Changes
pub mod Histories
pub mod Forks
mod Tests
use xenopus.Prelude.{
  ℕ, zero, suc, ◌+◌, Bool, true, false, Option, none, some, List, [], ◌∷◌, ◌++◌, map, String,
  str_eq, Result, ok, err, length, leb, any, filter, if◌then◌else◌,
}
use xenopus.Prelude.Dict.{Dict, lookup, has}
use xenopus.Prelude.Tables.{alter}
use xenopus.Prelude.Sort.{sort_by}
use xenopus.Prelude.Strip.{strip, is_blank}
use xenopus.Prelude.Text.{join}

pub record SessionTurn : Type 0 where
  pub turn_id : String
  pub session_id : String
  pub role : String
  pub content : String
  pub created_at : ℕ
  pub prompt_tokens : ℕ
  pub completion_tokens : ℕ
  pub cost_usd_micros : ℕ

pub record Session : Type 0 where
  pub session_id : String
  pub title : String
  pub parent_session_id : Option String
  pub created_at : ℕ
  pub updated_at : ℕ
  pub archived : Bool

-- The tables `sessions` and `session_turns`
pub record SessionStore : Type 0 where
  pub sessions : Dict Session
  pub turns : List SessionTurn

-- `integrity_error` is sqlite3.IntegrityError, for a primary key that is there already.
pub data SessionError : Type 0 where
  empty_title unknown_session is_archived integrity_error : SessionError

abbrev pub Answer : Type 0 → Type 0
Answer A = Result SessionError A × SessionStore

abbrev pub row_or_unknown : Option Session → Result SessionError Session
row_or_unknown none = err unknown_session
row_or_unknown (some session) = ok session

unfoldable pub get : String → SessionStore → Result SessionError Session
get session_id store = row_or_unknown (lookup session_id store.sessions)

-- What a method does with the session that it gets
abbrev pub with_session :
    {A : Type 0} → Result SessionError Session → (Session → Answer A) → SessionStore → Answer A
with_session (err e) f store = (err e, store)
with_session (ok session) f store = f session

abbrev pub root_session : String → String → ℕ → Session
root_session session_id title now = record {
  session_id = session_id;
  title = strip title;
  parent_session_id = none;
  created_at = now;
  updated_at = now;
  archived = false;
}

-- `INSERT INTO sessions`
abbrev pub insert_session : Session → SessionStore → SessionStore
insert_session session store = record store {
  sessions = (session.session_id, session) ∷ store.sessions;
}

unfoldable pub create : String → ℕ → String → SessionStore → Answer Session
create session_id now title store =
    let session : Session = root_session session_id title now in
    if is_blank (strip title)
    then (err empty_title, store)
    else if has session_id store.sessions
    then (err integrity_error, store)
    else (ok session, insert_session session store)

-- `SELECT … WHERE session_id = ? ORDER BY created_at, rowid`
unfoldable pub turns_of : String → List SessionTurn → List SessionTurn
turns_of session_id turns =
    sort_by (λ a b. leb a.created_at b.created_at)
      (filter (λ t. str_eq t.session_id session_id) turns)

-- The turns as the `INSERT … SELECT` of `fork` makes them, all with one id
abbrev pub copy_turn : String → String → SessionTurn → SessionTurn
copy_turn turn_id session_id t = record t { turn_id = turn_id; session_id = session_id }

abbrev pub copied : String → String → List SessionTurn → List SessionTurn
copied turn_id session_id turns = map (copy_turn turn_id session_id) turns

-- The rows after an `INSERT`; none when a primary key is there already
unfoldable pub insert_turns : List SessionTurn → List SessionTurn → Option (List SessionTurn)
insert_turns [] turns = some turns
insert_turns (t ∷ new_turns) turns =
    let inserted = insert_turns new_turns (turns ++ t ∷ []) in
    if any (λ u. str_eq u.turn_id t.turn_id) turns then none else inserted

abbrev pub forked_session : Session → String → String → ℕ → Session
forked_session parent session_id title now = record {
  session_id = session_id;
  title = if is_blank (strip title) then join "fork: " parent.title else strip title;
  parent_session_id = some parent.session_id;
  created_at = now;
  updated_at = now;
  archived = false;
}

-- The end of the transaction: all of it or nothing
abbrev pub commit :
    {A : Type 0} → A → Dict Session → Option (List SessionTurn) → SessionStore → Answer A
commit a sessions none store = (err integrity_error, store)
commit a sessions (some turns) store = (ok a, record { sessions = sessions; turns = turns })

abbrev pub fork_from : String → String → ℕ → String → SessionStore → Session → Answer Session
unfolding insert_turns turns_of
fork_from session_id turn_id now title store parent =
    let forked : Session = forked_session parent session_id title now in
    if has session_id store.sessions
    then (err integrity_error, store)
    else commit forked ((session_id, forked) ∷ store.sessions)
        (insert_turns (copied turn_id session_id (turns_of parent.session_id store.turns))
          store.turns)
        store

unfoldable pub fork : String → String → ℕ → String → String → SessionStore → Answer Session
unfolding get fork_from
fork session_id turn_id now parent_session_id title store =
    with_session (get parent_session_id store) (fork_from session_id turn_id now title store) store

-- The message of a turn and its usage
pub record Said : Type 0 where
  pub role : String
  pub content : String
  pub prompt_tokens : ℕ
  pub completion_tokens : ℕ
  pub cost_usd_micros : ℕ

abbrev pub new_turn : String → String → ℕ → Said → SessionTurn
new_turn turn_id session_id now said = record {
  turn_id = turn_id;
  session_id = session_id;
  role = said.role;
  content = said.content;
  created_at = now;
  prompt_tokens = said.prompt_tokens;
  completion_tokens = said.completion_tokens;
  cost_usd_micros = said.cost_usd_micros;
}

abbrev pub touched : ℕ → Session → Session
touched now session = record session { updated_at = now }

abbrev pub append_to : String → ℕ → String → Said → SessionStore → Session → Answer SessionTurn
unfolding insert_turns alter
append_to turn_id now session_id said store session =
    let turn : SessionTurn = new_turn turn_id session_id now said in
    if session.archived
    then (err is_archived, store)
    else commit turn (alter session_id (touched now) store.sessions)
        (insert_turns (turn ∷ []) store.turns) store

unfoldable pub append_turn : String → ℕ → String → Said → SessionStore → Answer SessionTurn
unfolding get append_to
append_turn turn_id now session_id said store =
    with_session (get session_id store) (append_to turn_id now session_id said store) store

abbrev pub put_away : Session → Session
put_away session = record session { archived = true }

abbrev pub archive_one : String → SessionStore → Session → Answer Session
unfolding alter get
archive_one session_id store session =
    let store' : SessionStore = record store {
      sessions = alter session_id put_away store.sessions;
    } in
    if session.archived then (ok session, store) else (get session_id store', store')

unfoldable pub archive : String → SessionStore → Answer Session
unfolding get archive_one
archive session_id store = with_session (get session_id store) (archive_one session_id store) store

abbrev pub if_known : {A : Type 0} → Result SessionError Session → A → Result SessionError A
if_known (err e) a = err e
if_known (ok session) a = ok a

unfoldable pub turns : String → SessionStore → Result SessionError (List SessionTurn)
unfolding get turns_of
turns session_id store = if_known (get session_id store) (turns_of session_id store.turns)

unfoldable pub total : (SessionTurn → ℕ) → List SessionTurn → ℕ
total f [] = 0
total f (t ∷ turns) = f t + total f turns

unfoldable pub usage_totals : String → SessionStore → Result SessionError (ℕ × ℕ × ℕ)
unfolding get total
usage_totals session_id store =
    let own : List SessionTurn = filter (λ t. str_eq t.session_id session_id) store.turns in
    if_known (get session_id store) (
      total (λ t. t.prompt_tokens) own,
      total (λ t. t.completion_tokens) own,
      total (λ t. t.cost_usd_micros) own,
    )

-- `lineage`: the loop, a round for each unit of fuel; none when it would go on
abbrev pub and_self :
    Session
    → Option (Result SessionError (List Session))
    → Option (Result SessionError (List Session))
and_self session none = none
and_self session (some (err e)) = some (err e)
and_self session (some (ok chain)) = some (ok (chain ++ session ∷ []))

abbrev pub climb_from :
    (String → Option (Result SessionError (List Session)))
    → Session
    → Option String
    → Option (Result SessionError (List Session))
climb_from up session none = some (ok (session ∷ []))
climb_from up session (some parent) = and_self session (up parent)

abbrev pub climb :
    (String → Option (Result SessionError (List Session)))
    → Result SessionError Session
    → Option (Result SessionError (List Session))
climb up (err e) = some (err e)
climb up (ok session) = climb_from up session session.parent_session_id

unfoldable pub ancestry : ℕ → String → SessionStore → Option (Result SessionError (List Session))
unfolding get
ancestry zero session_id store = none
ancestry (suc fuel) session_id store =
    climb (λ parent. ancestry fuel parent store) (get session_id store)

unfoldable pub lineage : String → SessionStore → Option (Result SessionError (List Session))
unfolding ancestry
lineage session_id store = ancestry (suc (length store.sessions)) session_id store
