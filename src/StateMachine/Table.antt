-- ===== src/StateMachine/Table.antt =====
-- The table that `registerTransitions` builds, read as a diagram.
use polarisagi_harness.Prelude.{◌≡◌, refl, Bool, true, false, Option, none, some, [], ◌∷◌, arith}
use polarisagi_harness.Protocol.{
  AgentState, AgentTrigger, idle, perceive, plan, validate, execute, reflect, replan, rollback,
  complete, failed, interrupt, intent_received, perceive_done, plan_done, validate_ok,
  validate_fail, execute_done, execute_fail, reflect_done, rollback_done, replan_done,
  replan_exhausted,
}
use polarisagi_harness.StateMachine.{
  Transition, deterministic, validate_dag, execute_dag, rollback_saga, finish_replan,
  perceive_effect, plan_effect, reflect_effect, edge, guarded_edge, find_edge, has_state,
  register_transitions,
}

abbrev pub from_plan : AgentTrigger → Option Transition
from_plan plan_done = some (edge plan plan_done validate (deterministic validate_dag ∷ []))
from_plan replan_exhausted = some (edge plan replan_exhausted failed [])
from_plan _ = none

abbrev pub from_validate : AgentTrigger → Option Transition
from_validate validate_ok =
    some (edge validate validate_ok execute (deterministic execute_dag ∷ []))
from_validate validate_fail =
    some (guarded_edge validate validate_fail replan (deterministic finish_replan ∷ []))
from_validate _ = none

abbrev pub from_execute : AgentTrigger → Option Transition
from_execute execute_done = some (edge execute execute_done reflect (reflect_effect ∷ []))
from_execute execute_fail =
    some (edge execute execute_fail rollback (deterministic rollback_saga ∷ []))
from_execute _ = none

abbrev pub from_idle : AgentTrigger → Option Transition
from_idle intent_received = some (edge idle intent_received perceive (perceive_effect ∷ []))
from_idle _ = none

abbrev pub from_perceive : AgentTrigger → Option Transition
from_perceive perceive_done = some (edge perceive perceive_done plan (plan_effect ∷ []))
from_perceive replan_exhausted = some (edge perceive replan_exhausted failed [])
from_perceive _ = none

abbrev pub from_reflect : AgentTrigger → Option Transition
from_reflect reflect_done = some (edge reflect reflect_done complete [])
from_reflect replan_exhausted = some (edge reflect replan_exhausted failed [])
from_reflect _ = none

abbrev pub from_replan : AgentTrigger → Option Transition
from_replan replan_done = some (edge replan replan_done plan (plan_effect ∷ []))
from_replan replan_exhausted = some (edge replan replan_exhausted failed [])
from_replan _ = none

abbrev pub from_rollback : AgentTrigger → Option Transition
from_rollback rollback_done =
    some (guarded_edge rollback rollback_done replan (deterministic finish_replan ∷ []))
from_rollback _ = none

-- The diagram: at most one edge for each state and trigger.
abbrev pub diagram : AgentState → AgentTrigger → Option Transition
diagram idle e = from_idle e
diagram perceive e = from_perceive e
diagram plan e = from_plan e
diagram validate e = from_validate e
diagram execute e = from_execute e
diagram reflect e = from_reflect e
diagram replan e = from_replan e
diagram rollback e = from_rollback e
diagram complete e = none
diagram failed e = none
diagram interrupt e = none

-- The states with an edge out of them.
abbrev pub has_edges : AgentState → Bool
has_edges complete = false
has_edges failed = false
has_edges interrupt = false
has_edges _ = true

pub find_edge-register :
    (s : AgentState) (e : AgentTrigger) → find_edge s e register_transitions ≡ diagram s e
unfolding find_edge register_transitions
find_edge-register idle e = ground arith
find_edge-register _ e = ground arith

pub has_state-register : (s : AgentState) → has_state s register_transitions ≡ has_edges s
unfolding has_state register_transitions
has_state-register idle = refl
has_state-register _ = refl
