-- ===== src/Runtime/Fsm/Moves.antt =====
-- What one call of `AgentFSM.transition` does, on every branch.
use xenopus.Prelude.{◌≡◌, refl, Bool, true, false, ◌⊎◌, inl, inr, Option, some, [], ok, err, arith}
use xenopus.Runtime.Fsm.{
  AgentState, AgentFsm, FsmError, illegal_transition, TransitionResult, Guard, ask, completed,
  failed, cancelled, legal_transitions, is_in, can_transition, transition,
}

module _ {W : Type 0} (target : AgentState) (guard : Option (Guard W)) (fsm : AgentFsm)
    (w : W) where
  -- A call that returns was legal, its guard agreed when it was first asked, the state is the
  -- target now, and the record names the two states.
  pub transition-moves :
      {r : TransitionResult}
      → (transition target guard fsm w).0 ≡ ok r
      → (can_transition fsm target ≡ true)
        × ((ask guard w).0 ≡ true)
        × ((transition target guard fsm w).1.state ≡ target)
        × (r.source ≡ fsm.state)
        × (r.target ≡ target)
  unfolding transition
  transition-moves h = ground arith

  -- A call that raises leaves the state as it was.
  pub transition_error-state :
      {e : FsmError}
      → (transition target guard fsm w).0 ≡ err e
      → (transition target guard fsm w).1 ≡ fsm
  unfolding transition
  transition_error-state h = ground arith

  -- A legal call whose guard agrees returns.
  pub transition-returns :
      can_transition fsm target ≡ true
      → (ask guard w).0 ≡ true
      → (r : TransitionResult) × ((transition target guard fsm w).0 ≡ ok r)
  unfolding transition
  transition-returns h g = (
    record {
      source = fsm.state;
      target = target;
      allowed = true;
      guard_passed = (ask guard (ask guard w).1).0;
    },
    ground arith,
  )

  -- An illegal call raises, and its guard is never asked.
  pub transition_illegal :
      can_transition fsm target ≡ false
      → transition target guard fsm w ≡ (err (illegal_transition fsm.state target), fsm, w)
  unfolding transition
  transition_illegal h = ground arith

abbrev pub is_terminal : AgentState → Bool
is_terminal completed = true
is_terminal failed = true
is_terminal cancelled = true
is_terminal _ = false

terminal_nil : (s : AgentState) → is_terminal s ≡ true → legal_transitions s ≡ []
unfolding legal_transitions
terminal_nil s h = ground arith

not_in_self : (s : AgentState) → is_in s (legal_transitions s) ≡ false
unfolding is_in legal_transitions
not_in_self completed = refl
not_in_self _ = refl

pub can_transition_terminal :
    (fsm : AgentFsm) (t : AgentState) → is_terminal fsm.state ≡ true → can_transition fsm t ≡ false
unfolding can_transition
can_transition_terminal fsm t h = rw (terminal_nil fsm.state h)

can_transition_self : (fsm : AgentFsm) → can_transition fsm fsm.state ≡ false
unfolding can_transition
can_transition_self fsm = not_in_self fsm.state

can_transition_refused :
    (fsm : AgentFsm) (t : AgentState)
    → (is_terminal fsm.state ≡ true) ⊎ (fsm.state ≡ t)
    → can_transition fsm t ≡ false
can_transition_refused fsm t (inl h) = can_transition_terminal fsm t h
can_transition_refused fsm t (inr e) = rw (← e) (can_transition_self fsm)

-- In a terminal state, and for the present state as the target, every call raises: the state stays
-- as it was, and the guard is not asked.
pub transition_refused :
    {W : Type 0} (target : AgentState) (guard : Option (Guard W)) (fsm : AgentFsm) (w : W)
    → (is_terminal fsm.state ≡ true) ⊎ (fsm.state ≡ target)
    → transition target guard fsm w ≡ (err (illegal_transition fsm.state target), fsm, w)
transition_refused target guard fsm w h =
    transition_illegal target guard fsm w (can_transition_refused fsm target h)

-- The record's `guard_passed` is what the guard answers when it is asked again.
pub transition-guard_passed :
    {W : Type 0} (target : AgentState) (guard : W → Bool × W) (fsm : AgentFsm) (w : W)
    {r : TransitionResult}
    → (transition target (some guard) fsm w).0 ≡ ok r
    → r.guard_passed ≡ (guard (guard w).1).0
unfolding transition
transition-guard_passed target guard fsm w h = ground arith
