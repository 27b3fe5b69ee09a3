-- ===== src/FallbackFsm.antt =====
-- pkg/cognition/fsm.go: the state machine without dependencies, for tests and degraded operation.
-- A callback is outside the program; it is given by the error that it returns, if any. Maps from
-- states are functions, and a duration is a number.
mod Laws
mod Tests
use polarisagi_harness.Prelude.{
  ℕ, suc, Bool, Option, none, some, List, [], ◌∷◌, ◌==◌, ltb, if◌then◌else◌, String,
}
use polarisagi_harness.Protocol.{AgentState, AgentTrigger, state_index, replan, failed}

pub record FallbackFsm : Type 0 where
  pub state : AgentState
  pub transitions : AgentState → AgentTrigger → Option AgentState
  pub callbacks : AgentState → Option (Option String)
  pub state_deadlines : AgentState → ℕ
  pub replan_count : ℕ

pub data Error : Type 0 where
  invalid_transition : AgentState → AgentTrigger → Error
  callback_failed : String → Error

pub new_fallback_fsm : AgentState → FallbackFsm
new_fallback_fsm initial = record {
  state = initial;
  transitions = λ _ _. none;
  callbacks = λ _. none;
  state_deadlines = λ _. 0;
  replan_count = 0;
}

same_state : AgentState → AgentState → Bool
same_state a b = state_index a == state_index b

pub add_deadline : FallbackFsm → AgentState → ℕ → FallbackFsm
unfolding same_state
add_deadline f s d = record f {
  state_deadlines = λ t. if same_state s t then d else f.state_deadlines t;
}

pub get_deadline : FallbackFsm → AgentState → ℕ
get_deadline f s = f.state_deadlines s

-- No entry in `callbacks`, a callback that succeeds, or one that fails.
call : Option (Option String) → Option Error
call none = none
call (some none) = none
call (some (some e)) = some (callback_failed e)

-- The state is set before the callback runs, and stays set when it fails.
enter : FallbackFsm → AgentState → FallbackFsm × Option Error
unfolding call
enter f s = (record f { state = s }, call (f.callbacks s))

move : FallbackFsm → AgentTrigger → Option AgentState → FallbackFsm × Option Error
unfolding enter same_state
move f e none = (f, some (invalid_transition f.state e))
move f e (some to) =
    let n = suc f.replan_count in
    if same_state to replan
    then enter (record f { replan_count = n }) (if ltb 3 n then failed else to)
    else enter f to

pub transition : FallbackFsm → AgentTrigger → FallbackFsm × Option Error
unfolding move
transition f e = move f e (f.transitions f.state e)

pub run : FallbackFsm → List AgentTrigger → FallbackFsm
run f [] = f
run f (e ∷ es) = run (transition f e).0 es
