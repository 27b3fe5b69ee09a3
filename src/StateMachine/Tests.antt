-- ===== src/StateMachine/Tests.antt =====
-- Runs of the state machine, and its theorems at them.
use polarisagi_harness.Prelude.{◌+◌, ◌*◌, ◌≤◌, ◌≡◌, refl, List, [], ◌∷◌}
use polarisagi_harness.Protocol.{
  AgentTrigger, idle, plan, validate, complete, failed, interrupt, intent_received, perceive_done,
  plan_done, validate_ok, validate_fail, execute_done, reflect_done, replan_done,
}
use polarisagi_harness.StateMachine.{
  StateMachine, StateContext, register_transitions, find_edge, has_state, try_edge, table_step,
  leave_interrupt, dispatch, run, new_state_machine, reset,
}
use polarisagi_harness.StateMachine.Gate.{Validated, execute_needs_validate}
use polarisagi_harness.StateMachine.Progress.{count_accepted, progress_bounded}

abbrev twice : StateContext
twice = record { max_replan = 2 }

abbrev happy : List AgentTrigger
happy = intent_received ∷ perceive_done ∷ plan_done ∷ validate_ok ∷ execute_done ∷ reflect_done ∷ []

abbrev rejected : List AgentTrigger
rejected =
    intent_received ∷ perceive_done ∷ plan_done ∷ validate_fail ∷ replan_done ∷ plan_done
    ∷ validate_fail ∷ []

happy_completes : (run (new_state_machine 0) twice happy).current ≡ complete
unfolding run dispatch table_step leave_interrupt new_state_machine register_transitions find_edge
    has_state try_edge
happy_completes = refl

rejected_fails : (run (new_state_machine 0) twice rejected).current ≡ failed
unfolding run dispatch table_step leave_interrupt new_state_machine register_transitions find_edge
    has_state try_edge
rejected_fails = refl

abbrev completed : StateMachine
completed = record {
  current = complete;
  transitions = register_transitions;
  history = idle ∷ [];
  replan_count = 1;
  event_seq = 0;
  started_at = 0;
  interrupt_from = idle;
}

abbrev validating : StateMachine
validating = record completed { current = validate }

abbrev held_machine : StateMachine
held_machine = record completed { current = interrupt; interrupt_from = plan }

execute_needs_validate_example : Validated (new_state_machine 0) twice happy
unfolding run dispatch table_step leave_interrupt new_state_machine register_transitions find_edge
    has_state try_edge
execute_needs_validate_example = execute_needs_validate 0 twice happy refl

progress_bounded_example : count_accepted (new_state_machine 0) twice happy ≤ 6 * 2 + 7
progress_bounded_example =
    progress_bounded 0 twice happy
      ((λ e. cc), ((λ e. cc), ((λ e. cc), ((λ e. cc), ((λ e. cc), ((λ e. cc), tt))))))

reset_idle : (reset completed 5).current ≡ idle
unfolding reset
reset_idle = refl
