-- ===== src/Runtime/Fsm/Tests.antt =====
-- Runs of `AgentFSM`, and the theorems at small inputs.
use mathlib.Core.List.{Memᴰ}
use xenopus.Prelude.{refl, Bool, true, inr, Option, none, List, [], ◌∷◌, not}
use xenopus.Runtime.Fsm.{
  AgentState, AgentFsm, Guard, idle, understanding, goal_forming, planning, ready, executing,
  observing, verifying, reflecting, completed, waiting, new, transition,
}
use xenopus.Runtime.Fsm.Histories.{
  History, start, call, CanEnd, completed-verified, every_state-CanEnd,
}

abbrev at : AgentState → AgentFsm
at s = record { state = s }

-- A guard that agrees at every other call.
abbrev alternating : Guard Bool
alternating w = (w, not w)

abbrev no_guard : Option (Guard Bool)
no_guard = none

program : Unit {0}
unfolding transition new
program = tt

abbrev to_completed : List AgentState
to_completed =
    completed ∷ reflecting ∷ verifying ∷ observing ∷ executing ∷ ready ∷ planning ∷ goal_forming
    ∷ understanding ∷ idle ∷ []

completed_history : History Bool (at completed) to_completed
unfolding program
completed_history =
    call
      (call
        (call
          (call
            (call
              (call
                (call
                  (call (call start understanding no_guard true _ refl) goal_forming no_guard true _
                    refl)
                  planning no_guard true _ refl)
                ready no_guard true _ refl)
              executing no_guard true _ refl)
            observing no_guard true _ refl)
          verifying no_guard true _ refl)
        reflecting no_guard true _ refl)
      completed no_guard true _ refl

completed-verified_example : Memᴰ verifying to_completed
completed-verified_example = completed-verified completed_history (inr refl)

every_state-CanEnd_example : CanEnd waiting
every_state-CanEnd_example = every_state-CanEnd waiting
