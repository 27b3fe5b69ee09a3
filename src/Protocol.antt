-- ===== src/Protocol.antt =====
-- internal/protocol/types.go: the states and triggers of the agent kernel.
use polarisagi_harness.Prelude.{ℕ}

pub data AgentState : Type 0 where
  idle perceive plan validate execute reflect replan rollback complete failed interrupt : AgentState

pub data AgentTrigger : Type 0 where
  intent_received perceive_done plan_done validate_ok validate_fail execute_done execute_fail
        reflect_done rollback_done replan_done replan_exhausted interrupt_received interrupt_resume
        interrupt_abort :
      AgentTrigger

-- The `iota` values, by which Go compares them.
abbrev pub state_index : AgentState → ℕ
state_index idle = 0
state_index perceive = 1
state_index plan = 2
state_index validate = 3
state_index execute = 4
state_index reflect = 5
state_index replan = 6
state_index rollback = 7
state_index complete = 8
state_index failed = 9
state_index interrupt = 10

abbrev pub trigger_index : AgentTrigger → ℕ
trigger_index intent_received = 0
trigger_index perceive_done = 1
trigger_index plan_done = 2
trigger_index validate_ok = 3
trigger_index validate_fail = 4
trigger_index execute_done = 5
trigger_index execute_fail = 6
trigger_index reflect_done = 7
trigger_index rollback_done = 8
trigger_index replan_done = 9
trigger_index replan_exhausted = 10
trigger_index interrupt_received = 11
trigger_index interrupt_resume = 12
trigger_index interrupt_abort = 13
