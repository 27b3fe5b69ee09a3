-- ===== src/StateMachine.antt =====
-- pkg/cognition/kernel/state_machine.go and transitions.go: the state machine of the agent kernel.
-- `ctx`, the mutex and the text of prompts are left out. Counters are `int`s that start at 0 and
-- only grow, so they are numbers here; `MaxReplan` is taken to be at least 0.
pub mod Table
pub mod Laws
pub mod Replan
pub mod Gate
pub mod Interrupts
pub mod Progress
mod Tests
use polarisagi_harness.Prelude.{
  ℕ, suc, Bool, true, false, not, ◌&&◌, ◌||◌, Option, none, some, List, [], ◌∷◌, ◌++◌, String, ◌==◌,
  ltb, leb, if◌then◌else◌,
}
use polarisagi_harness.Protocol.{
  AgentState, AgentTrigger, state_index, trigger_index, idle, perceive, plan, validate, execute,
  reflect, replan, rollback, complete, failed, interrupt, intent_received, perceive_done, plan_done,
  validate_ok, validate_fail, execute_done, execute_fail, reflect_done, rollback_done, replan_done,
  replan_exhausted, interrupt_received, interrupt_resume, interrupt_abort,
}

-- The functions that a `DeterministicEffect` of the table holds.
pub data DetFn : Type 0 where
  validate_dag execute_dag rollback_saga finish_replan : DetFn

-- The callbacks `OnSuccess` of an `LLMFillEffect`.
pub data OnSuccess : Type 0 where
  on_perceive_success parse_plan_on_success on_reflect_success : OnSuccess

pub record LlmFill : Type 0 where
  pub schema_ref : String
  pub on_success : OnSuccess
  pub max_retry : ℕ
  pub model_pool : String

pub data Effect : Type 0 where
  llm_fill : LlmFill → Effect
  deterministic : DetFn → Effect

-- What `Dispatch` reads of the shared context.
pub record StateContext : Type 0 where
  pub max_replan : ℕ

-- A guard reads the machine's `replanCount` and the context. No registered effect fails.
pub record Transition : Type 0 where
  pub «from» : AgentState
  pub trigger : AgentTrigger
  pub to : AgentState
  pub guard : Option (ℕ → StateContext → Bool)
  pub effects : List Effect

pub record StateMachine : Type 0 where
  pub current : AgentState
  pub transitions : List Transition
  pub history : List AgentState
  pub replan_count : ℕ
  pub event_seq : ℕ
  pub started_at : ℕ
  pub interrupt_from : AgentState

pub data Error : Type 0 where
  no_transitions : AgentState → Error
  no_transition : AgentState → AgentTrigger → Error
  guard_rejected : AgentState → AgentState → Error
  err_replan_exhausted : Error

pub data Result : Type 0 where
  ok : List Effect → Result
  err : Error → Result

same_state : AgentState → AgentState → Bool
same_state a b = state_index a == state_index b

same_edge : Transition → AgentState → AgentTrigger → Bool
unfolding same_state
same_edge t s e = same_state t.«from» s && trigger_index t.trigger == trigger_index e

-- `add`: the inner map's entry is overwritten.
pub add : Transition → List Transition → List Transition
unfolding same_edge
add t [] = t ∷ []
add t (u ∷ us) = if same_edge u t.«from» t.trigger then t ∷ us else u ∷ add t us

-- `sm.transitions[current]` has an entry.
pub has_state : AgentState → List Transition → Bool
unfolding same_state
has_state s [] = false
has_state s (t ∷ ts) = same_state t.«from» s || has_state s ts

-- `triggerMap[trigger]`.
pub find_edge : AgentState → AgentTrigger → List Transition → Option Transition
unfolding same_edge
find_edge s e [] = none
find_edge s e (t ∷ ts) = if same_edge t s e then some t else find_edge s e ts

abbrev perceive_effect : Effect
perceive_effect = llm_fill (record {
  schema_ref = "perceive_task";
  on_success = on_perceive_success;
  max_retry = 1;
  model_pool = "standard";
})

abbrev plan_effect : Effect
plan_effect = llm_fill (record {
  schema_ref = "plan_dag";
  on_success = parse_plan_on_success;
  max_retry = 1;
  model_pool = "reasoning";
})

abbrev reflect_effect : Effect
reflect_effect = llm_fill (record {
  schema_ref = "reflect_result";
  on_success = on_reflect_success;
  max_retry = 0;
  model_pool = "standard";
})

-- The guard of both edges into S_REPLAN.
abbrev may_replan : ℕ → StateContext → Bool
may_replan n c = ltb n c.max_replan

abbrev edge : AgentState → AgentTrigger → AgentState → List Effect → Transition
edge s e t fx = record { «from» = s; trigger = e; to = t; guard = none; effects = fx }

abbrev guarded_edge : AgentState → AgentTrigger → AgentState → List Effect → Transition
guarded_edge s e t fx = record {
  «from» = s;
  trigger = e;
  to = t;
  guard = some may_replan;
  effects = fx;
}

-- In the order of the calls of `add`.
pub register_transitions : List Transition
unfolding add
register_transitions =
    let t1 = add (edge idle intent_received perceive (perceive_effect ∷ [])) [] in
    let t2 = add (edge perceive perceive_done plan (plan_effect ∷ [])) t1 in
    let t3 = add (edge plan plan_done validate (deterministic validate_dag ∷ [])) t2 in
    let t4 = add (edge validate validate_ok execute (deterministic execute_dag ∷ [])) t3 in
    let t5 =
      add (guarded_edge validate validate_fail replan (deterministic finish_replan ∷ [])) t4 in
    let t6 = add (edge execute execute_done reflect (reflect_effect ∷ [])) t5 in
    let t7 = add (edge execute execute_fail rollback (deterministic rollback_saga ∷ [])) t6 in
    let t8 = add (edge reflect reflect_done complete []) t7 in
    let t9 =
      add (guarded_edge rollback rollback_done replan (deterministic finish_replan ∷ [])) t8 in
    let t10 = add (edge replan replan_done plan (plan_effect ∷ [])) t9 in
    let t11 = add (edge replan replan_exhausted failed []) t10 in
    let t12 = add (edge perceive replan_exhausted failed []) t11 in
    let t13 = add (edge plan replan_exhausted failed []) t12 in
    add (edge reflect replan_exhausted failed []) t13

pub new_state_machine : ℕ → StateMachine
new_state_machine now = record {
  current = idle;
  transitions = register_transitions;
  history = [];
  replan_count = 0;
  event_seq = 0;
  started_at = now;
  interrupt_from = idle;
}

-- agent.go
abbrev pub is_terminal_state : AgentState → Bool
is_terminal_state complete = true
is_terminal_state failed = true
is_terminal_state _ = false

-- The end of `Dispatch`, for an edge whose guard has passed.
pub take_edge : StateMachine → StateContext → Transition → StateMachine × Result
unfolding same_state
take_edge sm c t =
    let n = suc sm.replan_count in
    if same_state t.to replan
    then if leb c.max_replan n
      then (
        record sm {
          replan_count = n;
          history = sm.history ++ sm.current ∷ t.to ∷ [];
          current = failed;
        },
        err err_replan_exhausted,
      )
      else (
        record sm { replan_count = n; history = sm.history ++ sm.current ∷ []; current = t.to },
        ok t.effects,
      )
    else (record sm { history = sm.history ++ sm.current ∷ []; current = t.to }, ok t.effects)

passes : Option (ℕ → StateContext → Bool) → ℕ → StateContext → Bool
passes none n c = true
passes (some g) n c = g n c

pub try_edge :
    StateMachine → StateContext → AgentTrigger → Option Transition → StateMachine × Result
unfolding take_edge passes
try_edge sm c e none = (sm, err (no_transition sm.current e))
try_edge sm c e (some t) =
    if passes t.guard sm.replan_count c
    then take_edge sm c t
    else (sm, err (guard_rejected sm.current t.to))

-- The part of `Dispatch` that consults the table.
pub table_step : StateMachine → StateContext → AgentTrigger → StateMachine × Result
table_step sm c e =
    if has_state sm.current sm.transitions
    then try_edge sm c e (find_edge sm.current e sm.transitions)
    else (sm, err (no_transitions sm.current))

-- The edges out of S_INTERRUPT; any other trigger falls through to the table.
pub leave_interrupt : StateMachine → StateContext → AgentTrigger → StateMachine × Result
leave_interrupt sm c interrupt_resume =
    (record sm { history = sm.history ++ sm.current ∷ []; current = sm.interrupt_from }, ok [])
leave_interrupt sm c interrupt_abort =
    (record sm { history = sm.history ++ sm.current ∷ []; current = failed }, ok [])
leave_interrupt sm c e = table_step sm c e

pub dispatch : StateMachine → StateContext → AgentTrigger → StateMachine × Result
dispatch sm c e =
    if trigger_index e == trigger_index interrupt_received
      && (not (is_terminal_state sm.current)
          && not (state_index sm.current == state_index interrupt))
    then (
      record sm {
        interrupt_from = sm.current;
        history = sm.history ++ sm.current ∷ [];
        current = interrupt;
      },
      ok [],
    )
    else if state_index sm.current == state_index interrupt
    then leave_interrupt sm c e
    else table_step sm c e

pub reset : StateMachine → ℕ → StateMachine
reset sm now = record sm { current = idle; history = []; replan_count = 0; started_at = now }

-- A machine that is sent a sequence of triggers.
pub run : StateMachine → StateContext → List AgentTrigger → StateMachine
run sm c [] = sm
run sm c (e ∷ es) = run (dispatch sm c e).0 c es
