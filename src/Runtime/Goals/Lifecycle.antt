-- ===== src/Runtime/Goals/Lifecycle.antt =====
-- What any sequence of calls of the manager keeps.
use xenopus.Prelude.{
  ℕ, ◌≡◌, ◌≢◌, ◌↔◌, Bool, true, false, Option, some, List, [], ◌∷◌, String, ok, arith, str_eq_iff,
  All, is_empty, Option-cases, inl, inr,
}
use xenopus.Prelude.Dict.{lookup, lookup-insert}
use xenopus.Prelude.Strip.{is_blank}
use xenopus.Runtime.Goals
use xenopus.Runtime.Goals.{
  Goal, GoalDraft, GoalStatus, GoalManager, GoalError, active, achieved, abandoned, require_active,
  replace_status, require,
}

pub data Call (B : Type 0) : Type 0 where
  create : String → ℕ → GoalDraft B → Call B
  activate achieve abandon : String → Call B

abbrev pub is_terminal : GoalStatus → Bool
is_terminal achieved = true
is_terminal abandoned = true
is_terminal _ = false

module _ {B : Type 0} where
  unfoldable pub perform : Call B → GoalManager B → GoalManager B
  unfolding Goals.create Goals.activate Goals.achieve Goals.abandon
  perform (create id now d) m = (Goals.create id now d m).1
  perform (activate k) m = (Goals.activate k m).1
  perform (achieve k) m = (Goals.achieve k m).1
  perform (abandon k) m = (Goals.abandon k m).1

  -- The calls of the list, from the left
  unfoldable pub perform_all : List (Call B) → GoalManager B → GoalManager B
  perform_all [] m = m
  perform_all (c ∷ cs) m = perform_all cs (perform c m)

  -- `uuid4` gave another id.
  abbrev pub CreatesOther : String → Call B → Type 0
  CreatesOther k (create id now d) = id ≢ k
  CreatesOther k _ = Unit {0}

  terminal_step :
      (k : String) (c : Call B) (m : GoalManager B) (g : Goal B)
      → CreatesOther k c
      → lookup k m ≡ some g
      → is_terminal g.status ≡ true
      → lookup k (perform c m) ≡ some g
  unfolding perform Goals.create Goals.activate Goals.achieve Goals.abandon replace_status require
  terminal_step k (create id now d) m g other found t =
      ground (arith, lookup-insert id k (Goals.new_goal id now d) m, str_eq_iff id k)
  terminal_step k (activate j) m g other found t = elim (Option-cases (lookup j m)) [
    | inl e ↦ ground arith
    | inr (h, e) ↦ ground (arith, lookup-insert j k (replace_status h active) m, str_eq_iff j k)
  ]
  terminal_step k (achieve j) m g other found t = elim (Option-cases (lookup j m)) [
    | inl e ↦ ground arith
    | inr (h, e) ↦ ground (arith, lookup-insert j k (replace_status h achieved) m, str_eq_iff j k)
  ]
  terminal_step k (abandon j) m g other found t = elim (Option-cases (lookup j m)) [
    | inl e ↦ ground arith
    | inr (h, e) ↦ ground (arith, lookup-insert j k (replace_status h abandoned) m, str_eq_iff j k)
  ]

  -- A goal that is ACHIEVED or ABANDONED stands unchanged after any sequence of calls whose created
  -- goals have other ids: no call reactivates, achieves or abandons it.
  pub terminal-kept :
      (k : String) (cs : List (Call B)) (m : GoalManager B) (g : Goal B)
      → All (CreatesOther k) cs
      → lookup k m ≡ some g
      → is_terminal g.status ≡ true
      → lookup k (perform_all cs m) ≡ some g
  unfolding perform_all
  terminal-kept k [] m g other found t = found
  terminal-kept k (c ∷ cs) m g other found t =
      terminal-kept k cs (perform c m) g other.1 (terminal_step k c m g other.0 found t) t

  -- A plan may bind to exactly the goals that are stored and ACTIVE.
  pub require_active_iff :
      (k : String) (m : GoalManager B) (g : Goal B)
      → (require_active k m ≡ ok g) ↔ ((lookup k m ≡ some g) × (g.status ≡ active))
  unfolding require_active
  require_active_iff k m g = ground arith

  -- Every stored goal has an objective and success criteria.
  abbrev pub Validated : GoalManager B → Type 0
  Validated m =
      (k : String) (g : Goal B)
      → lookup k m ≡ some g
      → (is_blank g.objective ≡ false) × (is_empty g.success_criteria ≡ false)

  Validated-store :
      (k : String) (s : GoalStatus) (h : Goal B) (m : GoalManager B)
      → lookup k m ≡ some h
      → Validated m
      → Validated (Goals.store k s h m).1
  unfolding Goals.store replace_status
  Validated-store k s h m found v j g there =
      ground (arith, lookup-insert k j (replace_status h s) m, str_eq_iff k j, v k h found, v j g)

  Validated-move_to :
      (k : String) (test : GoalStatus → Option GoalError) (s : GoalStatus) (m : GoalManager B)
      → Validated m
      → Validated (Goals.move_to (require k m) test k s m).1
  unfolding require
  Validated-move_to k test s m v = elim (Option-cases (lookup k m)) [
    | inl e ↦ rw e v
    | inr (h, e) ↦ rw e (elim (Option-cases (test h.status)) [
      | inl free ↦ rw free (Validated-store k s h m e v)
      | inr (error, refused) ↦ rw refused v
    ])
  ]

  -- Whatever is called, a manager all of whose goals have an objective that is not blank and at
  -- least one success criterion keeps that property.
  pub perform-Validated : (c : Call B) (m : GoalManager B) → Validated m → Validated (perform c m)
  unfolding perform Goals.create Goals.activate Goals.achieve Goals.abandon Goals.new_goal
  perform-Validated (create id now d) m v j g there =
      ground (arith, lookup-insert id j (Goals.new_goal id now d) m, v j g)
  perform-Validated (activate k) m v j g there = Validated-move_to k _ active m v j g there
  perform-Validated (achieve k) m v j g there = Validated-move_to k _ achieved m v j g there
  perform-Validated (abandon k) m v j g there = Validated-move_to k _ abandoned m v j g there
