-- ===== src/StateMachine/Interrupts.antt =====
-- S_INTERRUPT: how it is entered and left.
use polarisagi_harness.Prelude.{◌≡◌, ◌≢◌, false, [], ◌∷◌, ◌++◌, arith}
use polarisagi_harness.Protocol.{
  AgentTrigger, failed, interrupt, interrupt_received, interrupt_resume, interrupt_abort,
}
use polarisagi_harness.StateMachine.{
  StateMachine, StateContext, leave_interrupt, dispatch, is_terminal_state, no_transitions, err,
}
use polarisagi_harness.StateMachine.Laws.{HasTable, table_step_lem}

-- An active machine that is interrupted and resumed is back in its state, with nothing changed
-- but the two history entries and the note of where it was interrupted; an abort ends in S_FAILED.
pub interrupt_round_trip :
    (sm : StateMachine) (c : StateContext)
    → is_terminal_state sm.current ≡ false
    → sm.current ≢ interrupt
    → let held = (dispatch sm c interrupt_received).0 in
      (held.current ≡ interrupt)
      × ((dispatch held c interrupt_resume).0 ≡ record sm {
        history = (sm.history ++ sm.current ∷ []) ++ interrupt ∷ [];
        interrupt_from = sm.current;
      })
      × ((dispatch held c interrupt_abort).0.current ≡ failed)
unfolding dispatch leave_interrupt
interrupt_round_trip sm c t h = ground arith

-- In S_INTERRUPT every trigger but Resume and Abort is refused, a second interrupt included.
pub interrupt_only_exits :
    (sm : StateMachine) (c : StateContext) (e : AgentTrigger)
    → HasTable sm
    → sm.current ≡ interrupt
    → e ≢ interrupt_resume
    → e ≢ interrupt_abort
    → dispatch sm c e ≡ (sm, err (no_transitions interrupt))
unfolding dispatch leave_interrupt
interrupt_only_exits sm c e h i r a = ground (arith, table_step_lem sm c e h)
