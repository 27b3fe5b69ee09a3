-- ===== src/Blackboard/Handlers.antt =====
-- The handlers on a task: what each does to its entry and sends.
use polarisagi_harness.Prelude.{
  ℕ, ◌+◌, Bool, true, false, not, ◌||◌, Option, none, some, List, [], String, lookup, insert, ltb,
  str_eq, if◌then◌else◌,
}
use polarisagi_harness.Blackboard.Tasks.{
  pending, claimed, executing, suspended, compensating, done, failed, has_status, TaskEntry,
  TaskSnapshot, BlackboardEvent, stale_lease, Blackboard, Reply, returned, is_claimed, refused,
  send,
}

-- What a handler does to the entry of its task: `refuse` with what it returns then, `write` the
-- entry, or write it and send an event.
pub data Action : Type 0 where
  refuse : Reply → Action
  write : TaskEntry → Action
  write_send : TaskEntry → BlackboardEvent → Reply → Action

unfoldable pub act : Blackboard → String → Action → Blackboard × Reply
act b id (refuse r) = (b, r)
act b id (write e) = (record b { tasks = insert id e b.tasks }, returned)
act b id (write_send e ev r) = send (record b { tasks = insert id e b.tasks }) ev r

-- A handler looks its task up; `missing` is what it returns if there is none.
unfoldable pub handle_on :
    Blackboard → String → Reply → (TaskEntry → Action) → Option TaskEntry → Blackboard × Reply
handle_on b id missing f none = (b, missing)
handle_on b id missing f (some e) = act b id (f e)

unfoldable pub handle : Blackboard → String → Reply → (TaskEntry → Action) → Blackboard × Reply
handle b id missing f = handle_on b id missing f (lookup id b.tasks)

abbrev is_owner : TaskEntry → String → Bool
is_owner e agent = str_eq e.claimed_by agent

unfoldable pub start_action : String → ℕ → TaskEntry → Action
start_action agent now e =
    if not (is_owner e agent)
    then refuse (refused stale_lease)
    else if not (has_status e.status claimed)
    then refuse (refused stale_lease)
    else write (record e { status = executing; updated_at = now })

unfoldable pub complete_action : String → String → List ℕ → ℕ → TaskEntry → Action
complete_action id agent result now e =
    if not (is_owner e agent)
    then refuse (refused stale_lease)
    else write_send (record e { result = result; status = done; updated_at = now })
        (record {
          kind = "task_completed";
          task_id = id;
          agent_id = agent;
          payload = result;
          timestamp = now;
        })
        returned

unfoldable pub fail_action : String → String → List ℕ → ℕ → TaskEntry → Action
fail_action id agent reason now e =
    if not (is_owner e agent)
    then refuse (refused stale_lease)
    else write_send (record e { result = reason; status = failed; updated_at = now })
        (record {
          kind = "task_failed";
          task_id = id;
          agent_id = agent;
          payload = reason;
          timestamp = now;
        })
        returned

unfoldable pub claim_action : String → String → ℕ → TaskEntry → Action
claim_action id agent now e =
    if not (str_eq e.claimed_by "")
    then refuse (is_claimed false)
    else if not (has_status e.status pending)
    then refuse (is_claimed false)
    else write_send
        (record e { claimed_by = agent; claimed_at = now; expires_at = now + 60; status = claimed })
        (record {
          kind = "task_claimed";
          task_id = id;
          agent_id = agent;
          payload = [];
          timestamp = now;
        })
        (is_claimed true)

unfoldable pub renew_action : String → ℕ → TaskEntry → Action
renew_action agent now e =
    if not (is_owner e agent) then refuse returned else write (record e { expires_at = now + 60 })

unfoldable pub suspend_action : String → ℕ → ℕ → TaskEntry → Action
suspend_action agent timeout now e =
    if not (is_owner e agent) || not (has_status e.status executing)
    then refuse (refused stale_lease)
    else write (record e { status = suspended; expires_at = timeout; updated_at = now })

-- The two readings of the clock are taken in one second, here and below.
unfoldable pub resume_action : String → Bool → ℕ → TaskEntry → Action
resume_action agent approved now e =
    if not (is_owner e agent) || not (has_status e.status suspended)
    then refuse (refused stale_lease)
    else write (record e {
      status = if approved then executing else failed;
      expires_at = now + 60;
      updated_at = now;
    })

unfoldable pub begin_compensation_action : String → ℕ → TaskEntry → Action
begin_compensation_action agent now e =
    if not (is_owner e agent) || not (has_status e.status executing)
    then refuse (refused stale_lease)
    else write (record e { status = compensating; expires_at = now + 300; updated_at = now })

unfoldable pub end_compensation_action : String → ℕ → TaskEntry → Action
end_compensation_action agent now e =
    if not (is_owner e agent) || not (has_status e.status compensating)
    then refuse (refused stale_lease)
    else write (record e { status = failed; updated_at = now })

-- SideEffectPreCheck writes nothing.
unfoldable pub precheck_action : String → ℕ → TaskEntry → Action
precheck_action agent now e =
    if not (is_owner e agent)
    then refuse (refused stale_lease)
    else if ltb e.expires_at now
    then refuse (refused stale_lease)
    else if not (has_status e.status executing)
    then refuse (refused stale_lease)
    else refuse returned

unfoldable pub peek_task : Blackboard → String → Option TaskSnapshot
peek_task b id = elim (lookup id b.tasks) [
  | none ↦ none
  | some e ↦ some (record { id = e.id; status = e.status; result = e.result })
]
