-- ===== src/Persistence/Sessions/Forks.antt =====
-- What `fork` does with the turns of the parent.
use xenopus.Prelude.{
  ℕ, ◌≡◌, refl, Bool, true, none, some, List, [], ◌∷◌, ◌++◌, String, str_eq, str_eq_iff, err, arith,
  any, Bool-cases, inl, inr,
}
use xenopus.Prelude.Dict.{lookup, has}
use xenopus.Persistence.Sessions.{
  Session, SessionStore, SessionTurn, fork, turns_of, insert_turns, copied, copy_turn,
  integrity_error,
}

any-last {ℓ} :
    {A : Type ℓ} (p : A → Bool) (xs : List A) (x : A) → p x ≡ true → any p (xs ++ x ∷ []) ≡ true
any-last p [] x h = rw h refl
any-last p (y ∷ xs) x h = ground (arith, any-last p xs x)

insert_turns-twice :
    (turn_id session_id : String) (a b : SessionTurn) (rest turns : List SessionTurn)
    → insert_turns (copied turn_id session_id (a ∷ b ∷ rest)) turns ≡ none
unfolding insert_turns
insert_turns-twice turn_id session_id a b rest turns =
    let same : str_eq turn_id turn_id ≡ true = (str_eq_iff turn_id turn_id).1 refl in
    let twice =
      any-last (λ u. str_eq u.turn_id turn_id) turns (copy_turn turn_id session_id a) same in
    ground (arith)

-- A session with two turns or more cannot be forked: the copies of its turns all get one id, which
-- is their primary key. The call raises sqlite3.IntegrityError and leaves the store as it was.
pub fork-collides :
    (session_id turn_id : String) (now : ℕ) (parent_session_id title : String)
    (store : SessionStore) (parent : Session) (a b : SessionTurn) (rest : List SessionTurn)
    → lookup parent_session_id store.sessions ≡ some parent
    → turns_of parent.session_id store.turns ≡ a ∷ b ∷ rest
    → fork session_id turn_id now parent_session_id title store ≡ (err integrity_error, store)
unfolding fork
fork-collides session_id turn_id now parent_session_id title store parent a b rest found own =
    let twice = insert_turns-twice turn_id session_id a b rest store.turns in
    elim (Bool-cases (has session_id store.sessions)) [
      | inl e ↦ rw (found, e) refl
      | inr e ↦ rw (found, e, own, twice) refl
    ]
