-- ===== src/StateMachine/Progress.antt =====
-- A machine that is not interrupted comes to rest.
use polarisagi_harness.Prelude.{ℕ, ◌+◌, ◌-◌, ◌*◌, ◌≤◌, ◌≢◌, List, [], ◌∷◌, arith, All}
use polarisagi_harness.Protocol.{
  AgentState, AgentTrigger, idle, perceive, plan, interrupt, execute, reflect, rollback, replan,
  validate, interrupt_received,
}
use polarisagi_harness.StateMachine.{
  StateMachine, StateContext, Result, ok, err, try_edge, leave_interrupt, dispatch,
  new_state_machine,
}
use polarisagi_harness.StateMachine.Laws.{table_step_lem}
use polarisagi_harness.StateMachine.Replan.{Inv, dispatch-Inv, new_state_machine-Inv}

-- How far a state is from the end of its round.
abbrev rank : AgentState → ℕ
rank idle = 7
rank perceive = 6
rank replan = 6
rank plan = 5
rank validate = 4
rank execute = 3
rank reflect = 2
rank rollback = 2
rank _ = 1

abbrev measure : ℕ → StateMachine → ℕ
measure m sm = 6 * (m - sm.replan_count) + rank sm.current

abbrev pub accepted : Result → ℕ
accepted (ok fx) = 1
accepted (err e) = 0

-- How many triggers of a run are accepted.
pub count_accepted : StateMachine → StateContext → List AgentTrigger → ℕ
count_accepted sm c [] = 0
count_accepted sm c (e ∷ es) =
    accepted (dispatch sm c e).1 + count_accepted (dispatch sm c e).0 c es

dispatch-measure :
    (sm : StateMachine) (c : StateContext) (e : AgentTrigger)
    → Inv c.max_replan sm
    → sm.current ≢ interrupt
    → e ≢ interrupt_received
    → (accepted (dispatch sm c e).1 + measure c.max_replan (dispatch sm c e).0
        ≤ measure c.max_replan sm)
      × ((dispatch sm c e).0.current ≢ interrupt)
unfolding dispatch leave_interrupt try_edge
dispatch-measure sm c e v h n = ground (arith, table_step_lem sm c e v.table)

count_accepted-le :
    (sm : StateMachine) (c : StateContext) (es : List AgentTrigger)
    → Inv c.max_replan sm
    → sm.current ≢ interrupt
    → All (λ e. e ≢ interrupt_received) es
    → count_accepted sm c es ≤ measure c.max_replan sm
unfolding count_accepted
count_accepted-le sm c [] v h a = omega arith
count_accepted-le sm c (e ∷ es) v h a =
    let step = dispatch-measure sm c e v h a.0 in
    omega
      (arith, step, count_accepted-le (dispatch sm c e).0 c es (dispatch-Inv sm c e v) step.1 a.1)

-- Of the triggers that a new machine is sent, none of them an interrupt, it accepts at most
-- 6 * MaxReplan + 7: the rest are refused.
pub progress_bounded :
    (now : ℕ) (c : StateContext) (es : List AgentTrigger)
    → All (λ e. e ≢ interrupt_received) es
    → count_accepted (new_state_machine now) c es ≤ 6 * c.max_replan + 7
unfolding new_state_machine
progress_bounded now c es a = omega (
  arith,
  count_accepted-le (new_state_machine now) c es (new_state_machine-Inv c.max_replan now) (λ e. cc)
      a,
)
