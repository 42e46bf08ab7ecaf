-- ===== src/Runtime/Fsm.antt =====
-- src/xenopus/runtime/fsm.py: the states of an agent, the table of legal transitions, and the one
-- method that moves between them. The child modules prove what holds of it.
pub mod Moves
pub mod Histories
mod Tests
use xenopus.Prelude.{
  Bool, true, Option, none, some, List, [], ◌∷◌, Result, ok, err, Exec, any, if◌then◌else◌,
}
use mathlib.Core.Bool.{decide}

pub data AgentState : Type 0 where
  idle understanding goal_forming planning ready executing observing verifying : AgentState
  reflecting completed recovering retrying replanning failed waiting_approval : AgentState
  paused waiting resumable cancelling cancelled : AgentState

pub AgentState-discrete : Discrete AgentState
AgentState-discrete = hlevel

-- `t in states`
unfoldable pub is_in : AgentState → List AgentState → Bool
unfolding AgentState-discrete decide
is_in t states = any (λ s. decide (AgentState-discrete s t)) states

-- LEGAL_TRANSITIONS
unfoldable pub legal_transitions : AgentState → List AgentState
legal_transitions idle = understanding ∷ []
legal_transitions understanding = goal_forming ∷ cancelling ∷ []
legal_transitions goal_forming = planning ∷ cancelling ∷ waiting_approval ∷ []
legal_transitions planning = ready ∷ replanning ∷ waiting_approval ∷ cancelling ∷ failed ∷ []
legal_transitions ready = executing ∷ waiting_approval ∷ cancelling ∷ []
legal_transitions executing = observing ∷ paused ∷ waiting_approval ∷ recovering ∷ cancelling ∷ []
legal_transitions observing = verifying ∷ executing ∷ recovering ∷ []
legal_transitions verifying = reflecting ∷ retrying ∷ replanning ∷ []
legal_transitions reflecting = completed ∷ replanning ∷ []
legal_transitions completed = []
legal_transitions recovering = retrying ∷ replanning ∷ failed ∷ []
legal_transitions retrying = executing ∷ replanning ∷ failed ∷ []
legal_transitions replanning = planning ∷ failed ∷ cancelling ∷ []
legal_transitions failed = []
legal_transitions waiting_approval = ready ∷ cancelling ∷ []
legal_transitions paused = resumable ∷ cancelling ∷ []
legal_transitions waiting = ready ∷ cancelling ∷ []
legal_transitions resumable = executing ∷ cancelling ∷ []
legal_transitions cancelling = cancelled ∷ []
legal_transitions cancelled = []

pub data FsmError : Type 0 where
  illegal_transition : (source target : AgentState) → FsmError
  permission_denied : (source target : AgentState) → FsmError

pub record TransitionResult : Type 0 where
  pub source : AgentState
  pub target : AgentState
  pub allowed : Bool
  pub guard_passed : Bool

-- `AgentFSM`; its budget is attached at construction and not read here.
pub record AgentFsm : Type 0 where
  pub state : AgentState

unfoldable pub new : AgentFsm
new = record { state = idle }

unfoldable pub can_transition : AgentFsm → AgentState → Bool
unfolding is_in legal_transitions
can_transition fsm target = is_in target (legal_transitions fsm.state)

-- A guard is a callable of the caller's: it may change a world `W`, and answer otherwise each time.
abbrev pub Guard : Type 0 → Type 0
Guard W = W → Bool × W

module _ {W : Type 0} where
  -- `guard is None or guard()`
  abbrev pub ask : Option (Guard W) → W → Bool × W
  ask none w = (true, w)
  ask (some guard) w = guard w

  -- The guard is called a second time for the record that is returned.
  unfoldable pub moved :
      Option (Guard W) → AgentState → AgentFsm → W → Result FsmError TransitionResult × AgentFsm × W
  moved guard target fsm w =
      let (passed, w') = ask guard w in
      (
        ok (record { source = fsm.state; target = target; allowed = true; guard_passed = passed }),
        record fsm { state = target },
        w',
      )

  unfoldable pub transition :
      AgentState → Option (Guard W) → AgentFsm → W → Result FsmError TransitionResult × AgentFsm × W
  unfolding can_transition moved
  transition target guard fsm w =
      let (passed, w') = ask guard w in
      if can_transition fsm target
      then (if passed
          then moved guard target fsm w'
          else (err (permission_denied fsm.state target), fsm, w'))
      else (err (illegal_transition fsm.state target), fsm, w)
