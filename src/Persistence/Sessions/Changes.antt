-- ===== src/Persistence/Sessions/Changes.antt =====
-- How calls change the store.
use xenopus.Prelude.{
  ℕ, ◌≡◌, ◌⊎◌, inl, inr, refl, false, none, some, List, [], ◌∷◌, String, Bool-cases, Option-cases,
  All,
}
use xenopus.Prelude.Dict.{lookup, has}
use xenopus.Prelude.Tables.{alter}
use xenopus.Prelude.Strip.{strip, is_blank}
use xenopus.Persistence.Sessions
use xenopus.Persistence.Sessions.{
  Session, SessionStore, SessionTurn, Said, get, insert_turns, copied, copy_turn, forked_session,
  root_session, new_turn, touched, put_away, turns_of, insert_session, Answer, commit, fork_from,
  append_to, archive_one, with_session,
}

pub data Call : Type 0 where
  create : String → ℕ → String → Call
  fork : String → String → ℕ → String → String → Call
  append_turn : String → ℕ → String → Said → Call
  archive : String → Call

unfoldable pub perform : Call → SessionStore → SessionStore
perform (create session_id now title) store = (Sessions.create session_id now title store).1
perform (fork session_id turn_id now parent_session_id title) store =
    (Sessions.fork session_id turn_id now parent_session_id title store).1
perform (append_turn turn_id now session_id said) store =
    (Sessions.append_turn turn_id now session_id said store).1
perform (archive session_id) store = (Sessions.archive session_id store).1

-- The turns are those of one session.
abbrev pub Own : String → List SessionTurn → Type 0
Own k new_turns = All (λ t. t.session_id ≡ k) new_turns

-- How a call changes the store
pub data Change (before : SessionStore) : SessionStore → Type 0 where
  kept : Change before before
  added :
      (s : Session) (new_turns turns : List SessionTurn)
      → has s.session_id before.sessions ≡ false
      → ((s.parent_session_id ≡ none)
          ⊎ ((j : String) × (p : Session) × (lookup j before.sessions ≡ some p)
              × (s.parent_session_id ≡ some p.session_id)))
      → Own s.session_id new_turns
      → insert_turns new_turns before.turns ≡ some turns
      → Change before record { sessions = (s.session_id, s) ∷ before.sessions; turns = turns }
  altered :
      (k : String) (s : Session) (f : Session → Session) (new_turns turns : List SessionTurn)
      → lookup k before.sessions ≡ some s
      → s.archived ≡ false
      → ((t : Session) → (f t).session_id ≡ t.session_id)
      → ((t : Session) → (f t).parent_session_id ≡ t.parent_session_id)
      → Own k new_turns
      → insert_turns new_turns before.turns ≡ some turns
      → Change before record { sessions = alter k f before.sessions; turns = turns }

copied-Own : (turn_id k : String) (turns : List SessionTurn) → Own k (copied turn_id k turns)
copied-Own turn_id k [] = tt
copied-Own turn_id k (t ∷ turns) = (refl, copied-Own turn_id k turns)

insert_no_turns : (turns : List SessionTurn) → insert_turns [] turns ≡ some turns
unfolding insert_turns
insert_no_turns turns = refl

create-Change :
    (session_id : String) (now : ℕ) (title : String) (store : SessionStore)
    → Change store (Sessions.create session_id now title store).1
unfolding Sessions.create
create-Change session_id now title store = elim (Bool-cases (is_blank (strip title))) [
  | inl e ↦ rw e kept
  | inr e ↦ elim (Bool-cases (has session_id store.sessions)) [
    | inl there ↦ rw (e, there) kept
    | inr new ↦
        rw (e, new)
          (added (root_session session_id title now) [] store.turns new (inl refl) tt
            (insert_no_turns store.turns))
  ]
]

fork-Change :
    (session_id turn_id : String) (now : ℕ) (parent_session_id title : String)
    (store : SessionStore)
    → Change store (Sessions.fork session_id turn_id now parent_session_id title store).1
unfolding Sessions.fork
fork-Change session_id turn_id now parent_session_id title store =
    elim (Option-cases (lookup parent_session_id store.sessions)) [
      | inl e ↦ rw e kept
      | inr (parent, e) ↦ elim (Bool-cases (has session_id store.sessions)) [
        | inl there ↦ rw (e, there) kept
        | inr new ↦
            let new_turns = copied turn_id session_id (turns_of parent.session_id store.turns) in
            elim (Option-cases (insert_turns new_turns store.turns)) [
              | inl collides ↦ rw (e, new, collides) kept
              | inr (turns, inserted) ↦
                  rw (e, new, inserted)
                    (added (forked_session parent session_id title now) new_turns turns new
                      (inr (parent_session_id, parent, e, refl))
                      (copied-Own turn_id session_id (turns_of parent.session_id store.turns))
                      inserted)
            ]
      ]
    ]

append_turn-Change :
    (turn_id : String) (now : ℕ) (session_id : String) (said : Said) (store : SessionStore)
    → Change store (Sessions.append_turn turn_id now session_id said store).1
unfolding Sessions.append_turn
append_turn-Change turn_id now session_id said store =
    elim (Option-cases (lookup session_id store.sessions)) [
      | inl e ↦ rw e kept
      | inr (session, e) ↦ elim (Bool-cases session.archived) [
        | inl old ↦ rw (e, old) kept
        | inr live ↦
            let turn = new_turn turn_id session_id now said in
            elim (Option-cases (insert_turns (turn ∷ []) store.turns)) [
              | inl collides ↦ rw (e, live, collides) kept
              | inr (turns, inserted) ↦
                  rw (e, live, inserted)
                    (altered session_id session (touched now) (turn ∷ []) turns e live (λ t. refl)
                      (λ t. refl) (refl, tt) inserted)
            ]
      ]
    ]

archive-Change :
    (session_id : String) (store : SessionStore)
    → Change store (Sessions.archive session_id store).1
unfolding Sessions.archive
archive-Change session_id store = elim (Option-cases (lookup session_id store.sessions)) [
  | inl e ↦ rw e kept
  | inr (session, e) ↦ elim (Bool-cases session.archived) [
    | inl old ↦ rw (e, old) kept
    | inr live ↦
        rw (e, live)
          (altered session_id session put_away [] store.turns e live (λ t. refl) (λ t. refl) tt
            (insert_no_turns store.turns))
  ]
]

pub perform-Change : (call : Call) (store : SessionStore) → Change store (perform call store)
unfolding perform
perform-Change (create session_id now title) store = create-Change session_id now title store
perform-Change (fork session_id turn_id now parent_session_id title) store =
    fork-Change session_id turn_id now parent_session_id title store
perform-Change (append_turn turn_id now session_id said) store =
    append_turn-Change turn_id now session_id said store
perform-Change (archive session_id) store = archive-Change session_id store
