-- ===== src/Blackboard/Requests.antt =====
-- The requests of agents, and the board in use.
use polarisagi_harness.Prelude.{
  ℕ, Bool, true, false, Option, none, some, List, [], ◌∷◌, ◌++◌, String, if◌then◌else◌,
}
use polarisagi_harness.Blackboard.Tasks.{
  TaskEntry, BlackboardEvent, task_not_found, Blackboard, Reply, returned, is_claimed, refused,
  post_task, post_batch,
}
use polarisagi_harness.Blackboard.Handlers.{
  handle, start_action, complete_action, fail_action, claim_action, renew_action, suspend_action,
  resume_action, begin_compensation_action, end_compensation_action, precheck_action,
}

-- The handlers that name a task and an agent, with their other arguments.
pub data Request : Type 0 where
  start_execution claim_task renew_lease begin_compensation end_compensation precheck : Request
  complete_task fail_task : List ℕ → Request
  suspend_for_hitl : ℕ → Request
  resume_from_hitl : Bool → Request

unfoldable pub request : Blackboard → String → String → ℕ → Request → Blackboard × Reply
request b id agent now start_execution =
    handle b id (refused task_not_found) (start_action agent now)
request b id agent now claim_task = handle b id (is_claimed false) (claim_action id agent now)
request b id agent now renew_lease = handle b id returned (renew_action agent now)
request b id agent now begin_compensation =
    handle b id (refused task_not_found) (begin_compensation_action agent now)
request b id agent now end_compensation =
    handle b id (refused task_not_found) (end_compensation_action agent now)
request b id agent now precheck = handle b id (refused task_not_found) (precheck_action agent now)
request b id agent now (complete_task r) =
    handle b id (refused task_not_found) (complete_action id agent r now)
request b id agent now (fail_task r) =
    handle b id (refused task_not_found) (fail_action id agent r now)
request b id agent now (suspend_for_hitl t) =
    handle b id (refused task_not_found) (suspend_action agent t now)
request b id agent now (resume_from_hitl a) =
    handle b id (refused task_not_found) (resume_action agent a now)

-- A receive takes the oldest event; a sender that waits then goes on.
unfoldable pub receive : Blackboard → Blackboard
receive b = elim b.events [
  | [] ↦ b
  | e ∷ es ↦ elim b.sender [
    | none ↦ record b { events = es }
    | some x ↦ record b { events = es ++ x ∷ []; sender = none }
  ]
]

-- What callers and subscribers do.
pub data Op : Type 0 where
  post : TaskEntry → Op
  post_all : List TaskEntry → Op
  ask : String → String → Request → Op
  set_epoch : ℕ → Op
  take_event : Op

-- A handler that has the mutex; SetEpoch takes it too.
unfoldable pub apply : Blackboard → ℕ → Op → Blackboard
apply b now (post e) = (post_task b e now).0
apply b now (post_all es) = (post_batch b es now).0
apply b now (ask id agent r) = (request b id agent now r).0
apply b now (set_epoch n) = record b { epoch = n }
apply b now take_event = receive b

-- While a sender waits with the mutex no other handler gets in; only a receive goes through.
unfoldable pub locked_out : Option BlackboardEvent → Op → Bool
locked_out none o = false
locked_out (some e) (post t) = true
locked_out (some e) (post_all ts) = true
locked_out (some e) (ask id agent r) = true
locked_out (some e) (set_epoch n) = true
locked_out (some e) take_event = false

unfoldable pub run_ops : Blackboard → List (ℕ × Op) → Blackboard
run_ops b [] = b
run_ops b ((now, o) ∷ os) =
    let next = run_ops (apply b now o) os in
    let blocked = run_ops b os in if locked_out b.sender o then blocked else next
