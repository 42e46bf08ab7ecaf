-- ===== src/Persistence/Sessions/Tests.antt =====
-- A session with two turns and a fork, and the theorems at them.
use xenopus.Prelude.{
  ◌≡◌, refl, false, true, Option, none, some, List, [], ◌∷◌, String, ok, err, inl, inr, ℕ,
}
use xenopus.Prelude.Dict.{lookup, has}
use xenopus.Prelude.Sort.{sort_by}
use xenopus.Prelude.Strip.{strip}
use xenopus.Prelude.Text.{join}
use xenopus.Persistence.Sessions.{
  Session, SessionStore, SessionTurn, create, fork, forked_session, lineage, empty_title,
  integrity_error, turns_of,
}
use xenopus.Persistence.Sessions.Lineages.{Descends, Links, last_id, lineage-Links}
use xenopus.Persistence.Sessions.Changes.{Call, append_turn, perform}
use xenopus.Persistence.Sessions.Forks.{fork-collides}
use xenopus.Persistence.Sessions.Histories.{perform-Descends, perform-archived, own_turns}

abbrev session : String → Option String → Session
session id parent = record {
  session_id = id;
  title = "notes";
  parent_session_id = parent;
  created_at = 1;
  updated_at = 4;
  archived = false;
}

abbrev old_session : Session
old_session = record (session "sess-0" none) { archived = true }

abbrev turn : String → String → ℕ → SessionTurn
turn turn_id session_id at = record {
  turn_id = turn_id;
  session_id = session_id;
  role = "user";
  content = "hello";
  created_at = at;
  prompt_tokens = 3;
  completion_tokens = 0;
  cost_usd_micros = 9;
}

abbrev store : SessionStore
store = record {
  sessions =
      ("sess-2", session "sess-2" (some "sess-1"))
      ∷ ("sess-1", session "sess-1" none)
      ∷ ("sess-0", old_session)
      ∷ [];
  turns = turn "turn-1" "sess-1" 2 ∷ turn "turn-2" "sess-0" 2 ∷ turn "turn-3" "sess-1" 3 ∷ [];
}

abbrev change : Call
change = append_turn "turn-4" 7 "sess-2" record {
  role = "user";
  content = "more";
  prompt_tokens = 2;
  completion_tokens = 0;
  cost_usd_micros = 6;
}

descends : Descends store.sessions
unfolding Descends has
descends =
    (refl, refl, inr ("sess-1", refl, refl), (refl, refl, inl refl, (refl, refl, inl refl, tt)))

fork-collides_example :
    fork "sess-3" "turn-9-" 8 "sess-1" "other" store ≡ (err integrity_error, store)
unfolding lookup turns_of sort_by
fork-collides_example =
    fork-collides "sess-3" "turn-9-" 8 "sess-1" "other" store (session "sess-1" none)
      (turn "turn-1" "sess-1" 2) (turn "turn-3" "sess-1" 3) [] refl refl

lineage-Links_example :
    (chain : List Session) × (lineage "sess-2" store ≡ some (ok chain))
    × Links none chain
    × (last_id none chain ≡ some "sess-2")
unfolding has
lineage-Links_example = lineage-Links store "sess-2" descends refl

perform-Descends_example : Descends (perform change store).sessions
perform-Descends_example = perform-Descends change store descends

perform-archived_example :
    (lookup "sess-0" (perform change store).sessions ≡ some old_session)
    × (own_turns "sess-0" (perform change store).turns ≡ own_turns "sess-0" store.turns)
unfolding lookup
perform-archived_example = perform-archived change store "sess-0" old_session refl refl

two_generations :
    lineage "sess-2" store
    ≡ some (ok (session "sess-1" none ∷ session "sess-2" (some "sess-1") ∷ []))
unfolding lineage lookup
two_generations = refl

-- A title of blanks is refused, and a fork with one has the title of its parent.
blank_title : create "sess-9" 9 "   " store ≡ (err empty_title, store)
unfolding create strip
blank_title = refl

blank_fork_title :
    (forked_session (session "sess-1" none) "sess-9" "  " 9).title
    ≡ join "fork: " (session "sess-1" none).title
unfolding strip
blank_fork_title = refl
