-- ===== src/Persistence/Sessions/Lineages.antt =====
-- Where sessions come from: a row's parent is older than the row, so that every lineage ends.
use xenopus.Prelude.{
  ℕ, zero, suc, ◌≤◌, ◌≡◌, ◌⊎◌, inl, inr, refl, sym, ap, ◌∙◌, subst, true, false, Option, none, some,
  List, [], ◌∷◌, ◌++◌, String, str_eq, str_eq_iff, ok, arith, length, Bool-cases,
}
use xenopus.Prelude.Dict.{Dict, lookup, has}
use xenopus.Persistence.Sessions.{
  Session, SessionStore, get, ancestry, lineage, and_self, row_or_unknown, climb, climb_from,
}

-- The rows of sessions, newest first: each under its own id, once, and forked from an older one, if any
unfoldable pub Descends : Dict Session → Type 0
Descends [] = Unit
Descends ((k, s) ∷ older) =
    (s.session_id ≡ k)
    × (has k older ≡ false)
    × ((s.parent_session_id ≡ none)
        ⊎ ((p : String) × (s.parent_session_id ≡ some p) × (has p older ≡ true)))
    × Descends older

-- A lineage from the root on: each session is forked from the one before it.
abbrev pub Links : Option String → List Session → Type 0
Links parent [] = Unit
Links parent (s ∷ chain) = (s.parent_session_id ≡ parent) × Links (some s.session_id) chain

-- The id of the last session of a chain
abbrev pub last_id : Option String → List Session → Option String
last_id parent [] = parent
last_id parent (s ∷ chain) = last_id (some s.session_id) chain

Links-append :
    (parent : Option String) (chain : List Session) (s : Session)
    → Links parent chain
    → s.parent_session_id ≡ last_id parent chain
    → Links parent (chain ++ s ∷ []) × (last_id parent (chain ++ s ∷ []) ≡ some s.session_id)
Links-append parent [] s h e = ((e, tt), refl)
Links-append parent (t ∷ chain) s (first, h) e =
    let (links, last) = Links-append (some t.session_id) chain s h e in ((first, links), last)

-- What `older` finds, the store finds.
abbrev Extends : SessionStore → Dict Session → Type 0
Extends store older = (k : String) → has k older ≡ true → lookup k store.sessions ≡ lookup k older

Extends-tail :
    (store : SessionStore) (k : String) (s : Session) (older : Dict Session)
    → has k older ≡ false
    → Extends store ((k, s) ∷ older)
    → Extends store older
unfolding has lookup
Extends-tail store k s older new ext j there = ground (arith, ext j, str_eq_iff k j)

-- The lineage is found, and it ends in the session itself.
abbrev Traced : ℕ → String → SessionStore → Type 0
Traced fuel session_id store =
    (chain : List Session) × (ancestry fuel session_id store ≡ some (ok chain))
    × Links none chain
    × (last_id none chain ≡ some session_id)

ancestry-climbs :
    (store : SessionStore) (fuel : ℕ) (session_id : String) (s : Session) (parent : Option String)
    → lookup session_id store.sessions ≡ some s
    → s.parent_session_id ≡ parent
    → ancestry (suc fuel) session_id store ≡ climb_from (λ p. ancestry fuel p store) s parent
unfolding ancestry get
ancestry-climbs store fuel session_id s parent found e =
    ap (λ r. climb (λ p. ancestry fuel p store) (row_or_unknown r)) found
    ∙ ap (λ p. climb_from (λ q. ancestry fuel q store) s p) e

lookup-newest :
    (k : String) (s : Session) (older : Dict Session) → lookup k ((k, s) ∷ older) ≡ some s
unfolding lookup
lookup-newest k s older = ground (arith, str_eq_iff k k)

ancestry-Traced :
    (store : SessionStore) (older : Dict Session) (fuel : ℕ) (session_id : String)
    → Descends older
    → Extends store older
    → length older ≤ fuel
    → has session_id older ≡ true
    → Traced fuel session_id store
unfolding Descends has
ancestry-Traced store [] fuel session_id d ext le h = cc
ancestry-Traced store ((k, s) ∷ older) zero session_id d ext le h = absurd (omega arith)
ancestry-Traced store ((k, s) ∷ older) (suc fuel) session_id (named, new, from, d) ext le h =
    let rest = Extends-tail store k s older new ext in
    elim (Bool-cases (str_eq k session_id)) [
      | inr e ↦ ancestry-Traced store older (suc fuel) session_id d rest (omega arith) (rw e at h)
      | inl e ↦
          let id : k ≡ session_id = (str_eq_iff k session_id).0 e in
          let own : s.session_id ≡ session_id = named ∙ id in
          let found : lookup session_id store.sessions ≡ some s =
            ext session_id h
            ∙ subst (λ j. lookup j ((k, s) ∷ older) ≡ some s) id (lookup-newest k s older) in
          elim from [
            | inl root ↦ (
              s ∷ [],
              ancestry-climbs store fuel session_id s none found root,
              (root, tt),
              ap some own,
            )
            | inr (p, parent, there) ↦
                let (chain, traced, links, last) =
                  ancestry-Traced store older fuel p d rest (omega arith) there in
                let (links', last') = Links-append none chain s links (parent ∙ sym last) in
                (
                  chain ++ s ∷ [],
                  ancestry-climbs store fuel session_id s (some p) found parent
                      ∙ ap (and_self s) traced,
                  links',
                  last' ∙ ap some own,
                )
          ]
    ]

-- Where every session is forked from an older one or from none, `lineage` ends for each session of
-- the store: the chain starts with a root, each of its sessions is forked from the one before it, and
-- it ends with the session itself.
pub lineage-Links :
    (store : SessionStore) (session_id : String)
    → Descends store.sessions
    → has session_id store.sessions ≡ true
    → (chain : List Session) × (lineage session_id store ≡ some (ok chain))
      × Links none chain
      × (last_id none chain ≡ some session_id)
unfolding lineage
lineage-Links store session_id d h =
    ancestry-Traced store store.sessions (suc (length store.sessions)) session_id d
      (λ k there. refl) (omega arith) h
