-- ===== src/StateMachine/Gate.antt =====
-- No plan is executed that was not validated.
use polarisagi_harness.Prelude.{
  ℕ, ◌≡◌, refl, ap, ◌⊎◌, inl, inr, Bool, true, false, List, [], ◌∷◌, ◌++◌, arith,
}
use polarisagi_harness.Protocol.{
  AgentState, AgentTrigger, complete, interrupt, execute, reflect, rollback, validate, validate_ok,
}
use polarisagi_harness.StateMachine.{
  StateMachine, StateContext, try_edge, leave_interrupt, dispatch, new_state_machine, run,
}
use polarisagi_harness.StateMachine.Laws.{HasTable, table_step_lem, dispatch-HasTable}

-- The states that lie behind the validation of the present plan.
abbrev pub past_gate : AgentState → Bool
past_gate execute = true
past_gate reflect = true
past_gate rollback = true
past_gate complete = true
past_gate _ = false

-- In S_INTERRUPT the interrupted state counts.
abbrev pub working_state : AgentState → AgentState → AgentState
working_state interrupt s = s
working_state t s = t

abbrev pub is_past : StateMachine → Bool
is_past sm = past_gate (working_state sm.current sm.interrupt_from)

-- Only `validate_ok` in S_VALIDATE passes the gate.
dispatch_passes :
    (sm : StateMachine) (c : StateContext) (e : AgentTrigger)
    → HasTable sm
    → is_past sm ≡ false
    → ((e ≡ validate_ok) × (sm.current ≡ validate)) ⊎ (is_past (dispatch sm c e).0 ≡ false)
unfolding dispatch leave_interrupt try_edge
dispatch_passes sm c e h p = ground (arith, table_step_lem sm c e h)

-- A moment of the run at which `validate_ok` arrives in S_VALIDATE.
pub Validated : StateMachine → StateContext → List AgentTrigger → Type 0
Validated sm c es =
    (before : List AgentTrigger) × (after : List AgentTrigger) × (es
      ≡ before ++ validate_ok ∷ after)
    × ((run sm c before).current ≡ validate)

run_passes :
    (sm : StateMachine) (c : StateContext) (es : List AgentTrigger)
    → HasTable sm
    → is_past sm ≡ false
    → is_past (run sm c es) ≡ true
    → Validated sm c es
unfolding run Validated
run_passes sm c [] h p q = cc
run_passes sm c (e ∷ es) h p q = elim (dispatch_passes sm c e h p) [
  | inl (v, w) ↦ ([], es, ap (λ (t : AgentTrigger). t ∷ es) v, w)
  | inr r ↦
      let (xs, ys, eq, at) = run_passes (dispatch sm c e).0 c es (dispatch-HasTable sm c e h) r q in
      (e ∷ xs, ys, ap (λ (l : List AgentTrigger). e ∷ l) eq, at)
]

-- A new machine that executes, reflects, rolls back or has completed, interrupted or not, was sent
-- `validate_ok` in S_VALIDATE on the way.
pub execute_needs_validate :
    (now : ℕ) (c : StateContext) (es : List AgentTrigger)
    → is_past (run (new_state_machine now) c es) ≡ true
    → Validated (new_state_machine now) c es
unfolding new_state_machine
execute_needs_validate now c es q = run_passes (new_state_machine now) c es refl refl q
