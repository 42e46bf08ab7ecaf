-- ===== src/Runtime/Fsm/Histories.antt =====
-- What holds of every agent that was only moved by calls of `AgentFSM.transition`.
use mathlib.Core.List.{Memᴰ}
use xenopus.Prelude.{
  ◌≡◌, refl, sym, ◌≢◌, Bool, true, false, ◌⊎◌, inl, inr, Option, List, [], ◌∷◌, ok, arith,
}
use xenopus.Runtime.Fsm.{
  AgentState, AgentFsm, TransitionResult, Guard, idle, understanding, observing, verifying,
  reflecting, completed, recovering, retrying, replanning, failed, waiting, cancelling, cancelled,
  is_in, legal_transitions, can_transition, new, transition,
}
use xenopus.Runtime.Fsm.Moves.{is_terminal, transition-moves}

-- An agent, and the states that it has been in, the latest first. Calls that raise change neither.
pub data History (W : Type 0) : AgentFsm → List AgentState → Type 0 where
  start : History W new (idle ∷ [])
  call :
      {fsm : AgentFsm} {past : List AgentState}
      → History W fsm past
      → (target : AgentState) (guard : Option (Guard W)) (w : W) (r : TransitionResult)
      → (transition target guard fsm w).0 ≡ ok r
      → History W (transition target guard fsm w).1 (target ∷ past)

-- The states that an agent is in from its verification to its completion.
abbrev is_checked : AgentState → Bool
is_checked verifying = true
is_checked reflecting = true
is_checked completed = true
is_checked _ = false

into_reflecting : (s : AgentState) → is_in reflecting (legal_transitions s) ≡ true → s ≡ verifying
unfolding is_in legal_transitions
into_reflecting verifying h = refl
into_reflecting _ h = cc

into_completed : (s : AgentState) → is_in completed (legal_transitions s) ≡ true → s ≡ reflecting
unfolding is_in legal_transitions
into_completed reflecting h = refl
into_completed _ h = cc

into_waiting : (s : AgentState) → is_in waiting (legal_transitions s) ≡ false
unfolding is_in legal_transitions
into_waiting idle = refl
into_waiting _ = refl

into_checked :
    (fsm : AgentFsm) (t : AgentState)
    → can_transition fsm t ≡ true
    → is_checked t ≡ true
    → (t ≡ verifying) ⊎ (is_checked fsm.state ≡ true)
unfolding can_transition
into_checked fsm verifying h c = inl refl
into_checked fsm reflecting h c = inr (rw (into_reflecting fsm.state h))
into_checked fsm completed h c = inr (rw (into_completed fsm.state h))
into_checked fsm _ h c = cc

is_checked-verified :
    {W : Type 0} {fsm : AgentFsm} {past : List AgentState}
    → History W fsm past
    → is_checked fsm.state ≡ true
    → Memᴰ verifying past
unfolding new
is_checked-verified start c = cc
is_checked-verified (call {fsm} h target guard w r e) c =
    let (legal, _, now, _, _) = transition-moves target guard fsm w e in
    elim (into_checked fsm target legal (rw now at c)) [
      | inl v ↦ Memᴰ.head (sym v)
      | inr before ↦ Memᴰ.tail (is_checked-verified h before)
    ]

-- An agent that is reflecting or completed has been in the state VERIFYING: no calls complete an
-- agent without its verification.
pub completed-verified :
    {W : Type 0} {fsm : AgentFsm} {past : List AgentState}
    → History W fsm past
    → (fsm.state ≡ reflecting) ⊎ (fsm.state ≡ completed)
    → Memᴰ verifying past
completed-verified h c = is_checked-verified h (ground arith)

-- No agent is ever in the state WAITING: no legal transition leads into it.
pub never_waiting :
    {W : Type 0} {fsm : AgentFsm} {past : List AgentState}
    → History W fsm past
    → fsm.state ≢ waiting
unfolding can_transition new
never_waiting start e = cc
never_waiting (call {fsm} h target guard w r e) q =
    let (legal, _, now, _, _) = transition-moves target guard fsm w e in
    cc (legal, now, q, into_waiting fsm.state)

-- A sequence of legal transitions.
pub data Route : AgentState → AgentState → Type 0 where
  here : {s : AgentState} → Route s s
  hop : {s t u : AgentState} → is_in t (legal_transitions s) ≡ true → Route t u → Route s u

abbrev pub CanEnd : AgentState → Type 0
CanEnd s = (t : AgentState) × (is_terminal t ≡ true) × Route s t

end_cancelling : CanEnd cancelling
unfolding is_in legal_transitions
end_cancelling = (cancelled, refl, hop refl here)

end_replanning : CanEnd replanning
unfolding is_in legal_transitions
end_replanning = (failed, refl, hop refl here)

module _ {s t : AgentState} where
  then_end : is_in t (legal_transitions s) ≡ true → CanEnd t → CanEnd s
  then_end h (u, last, route) = (u, last, hop h route)

end_verifying : CanEnd verifying
unfolding is_in legal_transitions
end_verifying = then_end {t = replanning} refl end_replanning

end_understanding : CanEnd understanding
unfolding is_in legal_transitions
end_understanding = then_end {t = cancelling} refl end_cancelling

-- Nothing is stuck: from every state some sequence of legal transitions ends in COMPLETED, FAILED
-- or CANCELLED.
pub every_state-CanEnd : (s : AgentState) → CanEnd s
unfolding is_in legal_transitions
every_state-CanEnd idle = then_end {t = understanding} refl end_understanding
every_state-CanEnd completed = (completed, refl, here)
every_state-CanEnd failed = (failed, refl, here)
every_state-CanEnd cancelled = (cancelled, refl, here)
every_state-CanEnd observing = then_end {t = verifying} refl end_verifying
every_state-CanEnd verifying = end_verifying
every_state-CanEnd reflecting = then_end {t = replanning} refl end_replanning
every_state-CanEnd recovering = then_end {t = replanning} refl end_replanning
every_state-CanEnd retrying = then_end {t = replanning} refl end_replanning
every_state-CanEnd replanning = end_replanning
every_state-CanEnd cancelling = end_cancelling
every_state-CanEnd _ = then_end {t = cancelling} refl end_cancelling
