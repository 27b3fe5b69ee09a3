-- ===== src/Blackboard/Tests.antt =====
-- A board with one task, and the theorems on boards there.
use polarisagi_harness.Prelude.{
  ℕ, ◌≡◌, ◌≢◌, refl, false, none, some, List, [], ◌∷◌, arith, String, str_eq_iff, lookup, insert,
}
use polarisagi_harness.Blackboard.Tasks.{
  pending, executing, TaskEntry, BlackboardEvent, Blackboard, is_claimed, send, try_send, post_task,
  post_entry, check_backpressure, new_blackboard, stamped,
}
use polarisagi_harness.Blackboard.Handlers.{act, handle, handle_on, start_action, claim_action}
use polarisagi_harness.Blackboard.Requests.{
  start_execution, claim_task, complete_task, request, Op, post, ask, take_event, apply, run_ops,
  locked_out,
}
use polarisagi_harness.Blackboard.Exclusive.{IsHeldBy, claim_exclusive}

abbrev task : TaskEntry
task = record {
  id = "t";
  kind = "code";
  priority = 1;
  status = pending;
  claimed_by = "";
  claimed_at = 0;
  expires_at = 0;
  toxicity = 0;
  intent = [];
  intent_taint = 3;
  result = [];
  result_taint = 0;
  depends_on = [];
  sub_tasks = [];
  deadline = 0;
  spawn_depth = 0;
  created_at = 0;
  updated_at = 0;
}

abbrev claimed_run : List (ℕ × Op)
claimed_run =
    (10, post task) ∷ (11, ask "t" "a" claim_task) ∷ (12, ask "t" "a" start_execution) ∷ []

abbrev claimed_board : Blackboard
claimed_board = run_ops new_blackboard claimed_run

held : IsHeldBy "t" "a" claimed_board
unfolding run_ops apply locked_out post_task post_entry check_backpressure try_send request handle
    handle_on claim_action start_action act send new_blackboard lookup insert
held = (
  record (stamped task 10) {
    status = executing;
    claimed_by = "a";
    claimed_at = 11;
    expires_at = 71;
    updated_at = 12;
  },
  refl,
  refl,
)

a_ne_nobody : ◌≢◌ {A = String} "a" ""
a_ne_nobody e = absurd (ground (arith, (str_eq_iff "a" "").1 e))

b_ne_a : ◌≢◌ {A = String} "b" "a"
b_ne_a e = absurd (ground (arith, (str_eq_iff "b" "a").1 e))

abbrev rival : List (ℕ × Op)
rival = (13, ask "t" "b" (complete_task [])) ∷ (14, take_event) ∷ []

-- An hour after the lease has run out, even its holder cannot claim the task again.
claim_exclusive_example :
    let c = run_ops claimed_board rival in
    IsHeldBy "t" "a" c
    × (request c "t" "a" 3700 claim_task ≡ (c, is_claimed false))
    × ((request c "t" "b" 3700 start_execution).0.tasks ≡ c.tasks)
claim_exclusive_example =
    claim_exclusive claimed_board rival "t" "a" "a" "b" 3700 start_execution a_ne_nobody b_ne_a held
      (tt, (tt, tt))

abbrev event : BlackboardEvent
event = record { kind = "task_posted"; task_id = "t"; agent_id = ""; payload = []; timestamp = 0 }

-- A channel of two events that is full.
abbrev full_board : Blackboard
full_board = record {
  tasks = ("t", task) ∷ [];
  events = event ∷ event ∷ [];
  capacity = 2;
  backpressure = false;
  epoch = 0;
  sender = none;
}

abbrev stuck_board : Blackboard
stuck_board = record full_board { sender = some event }

-- A claim on it waits in the send, with the task claimed already.
claim_waits : (request full_board "t" "a" 5 claim_task).0.sender ≢ none
unfolding request handle handle_on claim_action act send lookup
claim_waits e = cc
