-- ===== src/Persistence/Sessions/Histories.antt =====
-- What every call of the store keeps.
use xenopus.Prelude.{
  ◌≡◌, ◌∙◌, inl, inr, refl, sym, ap, subst, true, false, some, List, [], ◌∷◌, ◌++◌, String, str_eq,
  str_eq_iff, arith, any, Bool-cases, filter,
}
use mathlib.Core.Bool.{false≢true}
use xenopus.Prelude.Dict.{Dict, lookup, has}
use xenopus.Prelude.Tables.{alter, lookup-alter, has-alter, has_of_lookup}
use xenopus.Persistence.Sessions.{Session, SessionStore, SessionTurn, insert_turns}
use xenopus.Persistence.Sessions.Lineages.{Descends}
use xenopus.Persistence.Sessions.Changes.{
  Call, perform, Own, Change, kept, added, altered, perform-Change,
}

lookup-named :
    (k : String) (s : Session) (rows : Dict Session)
    → Descends rows
    → lookup k rows ≡ some s
    → s.session_id ≡ k
unfolding Descends lookup
lookup-named k s [] d found = cc
lookup-named k s ((j, t) ∷ rows) (named, new, from, d) found = elim (Bool-cases (str_eq j k)) [
  | inl e ↦
      let same : t ≡ s = cc (rw e at found) in
      ap (λ u. u.session_id) (sym same) ∙ named ∙ (str_eq_iff j k).0 e
  | inr e ↦ lookup-named k s rows d (rw e at found)
]

alter-Descends :
    (k : String) (f : Session → Session) (rows : Dict Session)
    → ((t : Session) → (f t).session_id ≡ t.session_id)
    → ((t : Session) → (f t).parent_session_id ≡ t.parent_session_id)
    → Descends rows
    → Descends (alter k f rows)
unfolding Descends alter
alter-Descends k f [] id parent d = tt
alter-Descends k f ((j, t) ∷ rows) id parent (named, new, from, d) =
    elim (Bool-cases (str_eq j k)) [
      | inl e ↦ rw e (
        id t ∙ named,
        new,
        elim from [
          | inl root ↦ inl (parent t ∙ root)
          | inr (p, forked, there) ↦ inr (p, parent t ∙ forked, there)
        ],
        d,
      )
      | inr e ↦ rw e (
        named,
        has-alter k j f rows ∙ new,
        elim from [
          | inl root ↦ inl root
          | inr (p, forked, there) ↦ inr (p, forked, has-alter k p f rows ∙ there)
        ],
        alter-Descends k f rows id parent d,
      )
    ]

Change-Descends :
    (before after : SessionStore)
    → Change before after
    → Descends before.sessions
    → Descends after.sessions
unfolding Descends
Change-Descends before after kept d = d
Change-Descends before after (added s new_turns turns new from own inserted) d = (
  refl,
  new,
  elim from [
    | inl root ↦ inl root
    | inr (j, p, found, forked) ↦
        let same = lookup-named j p before.sessions d found in
        inr (
          p.session_id,
          forked,
          subst (λ k. has k before.sessions ≡ true) (sym same)
              (has_of_lookup j p before.sessions found),
        )
  ],
  d,
)
Change-Descends before after (altered k s f new_turns turns found live id parent own inserted) d =
    alter-Descends k f before.sessions id parent d

-- Every call keeps the rows of sessions in descent: each stands under its own id, once, and is forked
-- from none or from one that was there before it.
pub perform-Descends :
    (call : Call) (store : SessionStore)
    → Descends store.sessions
    → Descends (perform call store).sessions
perform-Descends call store d =
    Change-Descends store (perform call store) (perform-Change call store) d

-- The turns of one session, in the order of their rowids
abbrev pub own_turns : String → List SessionTurn → List SessionTurn
own_turns k turns = filter (λ t. str_eq t.session_id k) turns

own_turns-last :
    (k : String) (t : SessionTurn) (turns : List SessionTurn)
    → str_eq t.session_id k ≡ false
    → own_turns k (turns ++ t ∷ []) ≡ own_turns k turns
own_turns-last k t [] ne = rw ne refl
own_turns-last k t (u ∷ turns) ne = ground (arith, own_turns-last k t turns)

insert_turns-other :
    (k j : String) (new_turns turns turns' : List SessionTurn)
    → str_eq j k ≡ false
    → Own j new_turns
    → insert_turns new_turns turns ≡ some turns'
    → own_turns k turns' ≡ own_turns k turns
unfolding insert_turns
insert_turns-other k j [] turns turns' ne own inserted =
    let same : turns ≡ turns' = cc in ap (own_turns k) (sym same)
insert_turns-other k j (t ∷ new_turns) turns turns' ne (same, own) inserted =
    elim (Bool-cases (any (λ u. str_eq u.turn_id t.turn_id) turns)) [
      | inl e ↦ cc (rw e at inserted)
      | inr e ↦
          insert_turns-other k j new_turns (turns ++ t ∷ []) turns' ne own (rw e at inserted)
          ∙ own_turns-last k t turns (subst (λ i. str_eq i k ≡ false) (sym same) ne)
    ]

-- A row under `k` and its turns
abbrev Stays : String → Session → SessionStore → SessionStore → Type 0
Stays k s before after =
    (lookup k after.sessions ≡ some s) × (own_turns k after.turns ≡ own_turns k before.turns)

other_of_new :
    (k j : String) (s : Session) (rows : Dict Session)
    → lookup k rows ≡ some s
    → has j rows ≡ false
    → str_eq j k ≡ false
other_of_new k j s rows found new = ground (arith, has_of_lookup k s rows, str_eq_iff j k)

Change-Stays :
    (before after : SessionStore) (k : String) (s : Session)
    → Change before after
    → lookup k before.sessions ≡ some s
    → s.archived ≡ true
    → Stays k s before after
unfolding lookup
Change-Stays before after k s kept found old = (found, refl)
Change-Stays before after k s (added new new_turns turns free from own inserted) found old =
    let ne = other_of_new k new.session_id s before.sessions found free in
    (rw ne found, insert_turns-other k new.session_id new_turns before.turns turns ne own inserted)
Change-Stays before after k s (altered j t f new_turns turns there live id parent own inserted)
      found old =
    elim (Bool-cases (str_eq j k)) [
      | inl e ↦
          let same : j ≡ k = (str_eq_iff j k).0 e in
          let one : t ≡ s = cc (there, same, found) in
          absurd (false≢true (cc (ap (λ u. u.archived) one, live, old)))
      | inr ne ↦ (
        rw (lookup-alter j k f before.sessions, ne) found,
        insert_turns-other k j new_turns before.turns turns ne own inserted,
      )
    ]

-- An archived session is immutable: no call changes its row or its turns.
pub perform-archived :
    (call : Call) (store : SessionStore) (k : String) (s : Session)
    → lookup k store.sessions ≡ some s
    → s.archived ≡ true
    → (lookup k (perform call store).sessions ≡ some s)
      × (own_turns k (perform call store).turns ≡ own_turns k store.turns)
perform-archived call store k s found old =
    Change-Stays store (perform call store) k s (perform-Change call store) found old
