-- ===== src/StateMachine/Replan.antt =====
-- The invariant of the state machine, and the bound on replanning.
use polarisagi_harness.Prelude.{
  ℕ, ◌≤◌, ◌<◌, ◌≡◌, refl, ◌⊎◌, ◌≢◌, inl, inr, false, List, [], ◌∷◌, arith,
}
use polarisagi_harness.Protocol.{AgentTrigger, failed, interrupt}
use polarisagi_harness.StateMachine.{
  StateMachine, StateContext, try_edge, leave_interrupt, dispatch, is_terminal_state,
  new_state_machine, reset, run,
}
use polarisagi_harness.StateMachine.Laws.{HasTable, table_step_lem}

-- `m` is the bound `MaxReplan`.
pub record Inv (m : ℕ) (sm : StateMachine) : Type 0 where
  pub table : HasTable sm
  pub bounded : sm.replan_count ≤ m
  pub live : (sm.current ≡ failed) ⊎ ((sm.replan_count < m) ⊎ (sm.replan_count ≡ 0))
  pub resumable :
      (sm.current ≢ interrupt)
      ⊎ ((is_terminal_state sm.interrupt_from ≡ false) × (sm.interrupt_from ≢ interrupt))

-- A new machine satisfies the invariant.
pub new_state_machine-Inv : (m now : ℕ) → Inv m (new_state_machine now)
unfolding new_state_machine
new_state_machine-Inv m now = record {
  table = refl;
  bounded = omega arith;
  live = inr (inr refl);
  resumable = inl (λ e. cc);
}

-- One trigger keeps the invariant, accepted or not.
pub dispatch-Inv :
    (sm : StateMachine) (c : StateContext) (e : AgentTrigger)
    → Inv c.max_replan sm
    → Inv c.max_replan (dispatch sm c e).0
unfolding dispatch leave_interrupt try_edge
dispatch-Inv sm c e v = ground (arith, table_step_lem sm c e v.table)

-- A machine that is reset satisfies it too, wherever it stood.
pub reset-Inv : (m now : ℕ) (sm : StateMachine) → HasTable sm → Inv m (reset sm now)
unfolding reset
reset-Inv m now sm h = ground arith

-- Every run from a machine that satisfies the invariant keeps it.
pub run-Inv :
    (sm : StateMachine) (c : StateContext) (es : List AgentTrigger)
    → Inv c.max_replan sm
    → Inv c.max_replan (run sm c es)
unfolding run
run-Inv sm c [] v = v
run-Inv sm c (e ∷ es) v = run-Inv (dispatch sm c e).0 c es (dispatch-Inv sm c e v)
