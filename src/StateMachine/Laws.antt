-- ===== src/StateMachine/Laws.antt =====
-- What one call of `Dispatch` does to a machine that holds the registered table.
use polarisagi_harness.Prelude.{suc, ◌≡◌, ◌⊎◌, true, arith, if◌then◌else◌}
use polarisagi_harness.Protocol.{AgentTrigger, failed}
use polarisagi_harness.StateMachine.{
  StateMachine, StateContext, Error, err, no_transitions, err_replan_exhausted,
  register_transitions, try_edge, table_step, leave_interrupt, dispatch, is_terminal_state,
}
use polarisagi_harness.StateMachine.Table.{
  diagram, has_edges, find_edge-register, has_state-register,
}

abbrev pub HasTable : StateMachine → Type 0
HasTable sm = sm.transitions ≡ register_transitions

pub table_step_lem :
    (sm : StateMachine) (c : StateContext) (e : AgentTrigger)
    → HasTable sm
    → table_step sm c e ≡ (
        if has_edges sm.current
        then try_edge sm c e (diagram sm.current e)
        else (sm, err (no_transitions sm.current)))
unfolding table_step
table_step_lem sm c e h = rw (h, has_state-register sm.current, find_edge-register sm.current e)

-- `dispatch` does not touch the table.
pub dispatch-HasTable :
    (sm : StateMachine) (c : StateContext) (e : AgentTrigger)
    → HasTable sm
    → HasTable (dispatch sm c e).0
unfolding dispatch leave_interrupt try_edge
dispatch-HasTable sm c e h = ground (arith, table_step_lem sm c e h)

-- A terminal machine refuses every trigger and stays as it is.
pub dispatch-terminal :
    (sm : StateMachine) (c : StateContext) (e : AgentTrigger)
    → HasTable sm
    → is_terminal_state sm.current ≡ true
    → dispatch sm c e ≡ (sm, err (no_transitions sm.current))
unfolding dispatch leave_interrupt
dispatch-terminal sm c e h t = ground (arith, table_step_lem sm c e h)

-- An error other than exhaustion leaves the machine unchanged; exhaustion ends in S_FAILED.
pub dispatch_error :
    (sm : StateMachine) (c : StateContext) (e : AgentTrigger) (x : Error)
    → HasTable sm
    → (dispatch sm c e).1 ≡ err x
    → ((dispatch sm c e).0 ≡ sm)
      ⊎ ((x ≡ err_replan_exhausted)
          × ((dispatch sm c e).0.current ≡ failed)
          × ((dispatch sm c e).0.replan_count ≡ suc sm.replan_count))
unfolding dispatch leave_interrupt try_edge
dispatch_error sm c e x h q = ground (arith, table_step_lem sm c e h)
