-- ===== src/TaskStore/Handlers.antt =====
-- The handlers of SQLiteBlackboard that agents call.
use polarisagi_harness.Prelude.{
  ℕ, suc, ◌*◌, Bool, true, false, not, ◌&&◌, Option, none, some, List, [], ◌∷◌, String, ltb, ◌==◌,
  update, if◌then◌else◌,
}
use polarisagi_harness.Blackboard.Tasks.{TaskStatus}
use polarisagi_harness.Blackboard.Tasks
use polarisagi_harness.TaskStore.Stamp.{Stamp, second, unix, rfc3339, sqlite_now, in_seconds}
use polarisagi_harness.TaskStore.Channels.{
  Event, EventKind, task_posted, task_claimed, task_running, task_completed, task_failed,
  killswitch_stopall, broadcast, broadcast_all,
}
use polarisagi_harness.TaskStore.Rows.{
  Row, RowStatus, pending, claimed, running, suspended, compensating, done, failed, in_status,
  owned, has_id, is_active, names, update_where, rows_affected, find, insert_or_ignore,
}

-- The default lease of 60 s, and the budget of a compensation.
abbrev pub default_lease_ttl : ℕ
default_lease_ttl = 60

abbrev pub compensation_budget : ℕ
compensation_budget = 300

pub data Error : Type 0 where
  internal task_not_owned stale_lease : Error

pub data Reply : Type 0 where
  returned : Reply
  is_claimed : Bool → Reply
  refused : Error → Reply

-- The board: the table, the tasks whose cancel function is registered, and the subscribers.
pub record Store : Type 0 where
  pub rows : List Row
  pub cancels : String → Bool
  pub subscribers : List (List Event)

-- TaskEntry, as far as an insertion reads it.
pub record TaskEntry : Type 0 where
  pub id : String
  pub kind : String
  pub priority : ℕ

abbrev pub event : EventKind → String → String → Event
event k id agent = record { kind = k; task_id = id; agent_id = agent }

abbrev publish : Store → Event → Store
publish b e = record b { subscribers = broadcast e b.subscribers }

unfoldable pub new_row : TaskEntry → ℕ → Row
new_row t now = record {
  task_id = t.id;
  session_id = t.kind;
  priority = t.priority;
  status = pending;
  claimed_by = none;
  expires_at = none;
  version = 0;
  toxicity = 0;
  suspend_reason = none;
  updated_at = sqlite_now now;
}

unfoldable pub register_cancel_func : Store → String → Store
register_cancel_func b id = record b { cancels = update b.cancels id true }

unfoldable pub remove_cancel_func : Store → String → Store
remove_cancel_func b id = record b { cancels = update b.cancels id false }

unfoldable pub post_task : Bool → Store → TaskEntry → ℕ → Store × Reply
post_task up b t now =
    if up
    then (
      publish (record b { rows = insert_or_ignore (new_row t now) b.rows })
          (event task_posted t.id ""),
      returned,
    )
    else (b, refused internal)

unfoldable pub insert_all : List TaskEntry → ℕ → List Row → List Row
insert_all [] now rows = rows
insert_all (t ∷ ts) now rows = insert_all ts now (insert_or_ignore (new_row t now) rows)

unfoldable pub posted : List TaskEntry → List Event
posted [] = []
posted (t ∷ ts) = event task_posted t.id "" ∷ posted ts

-- One transaction: all rows, or none.
unfoldable pub post_batch : Bool → Store → List TaskEntry → ℕ → Store × Reply
post_batch up b ts now =
    if up
    then (
      record b {
        rows = insert_all ts now b.rows;
        subscribers = broadcast_all (posted ts) b.subscribers;
      },
      returned,
    )
    else (b, refused internal)

-- What each UPDATE sets besides updated_at; every one adds 1 to the version.
abbrev pub touched : Row → ℕ → Row
touched r now = record r { version = suc r.version; updated_at = sqlite_now now }

abbrev pub set_status : RowStatus → ℕ → Row → Row
set_status s now r = record (touched r now) { status = s }

abbrev pub set_lease : RowStatus → ℕ → Stamp → Row → Row
set_lease s now t r = record (touched r now) { status = s; expires_at = some t }

-- An UPDATE: no answer of the database is the internal error, no row changed is `err`.
unfoldable pub exec : Bool → Store → (Row → Bool) → (Row → Row) → Error → Store × Reply
exec up b test f err =
    if up
    then if rows_affected test b.rows == 0
      then (b, refused err)
      else (record b { rows = update_where test f b.rows }, returned)
    else (b, refused internal)

-- The event that follows a success.
unfoldable pub announce : Event → Store × Reply → Store × Reply
announce e (b, returned) = (publish b e, returned)
announce e (b, other) = (b, other)

abbrev pub can_claim : String → Row → Bool
can_claim id r = has_id id r && in_status pending r

unfoldable pub claim_row : String → ℕ → Row → Row
claim_row agent now r = record (touched r now) {
  status = claimed;
  claimed_by = some agent;
  expires_at = some (in_seconds now default_lease_ttl);
}

unfoldable pub claim_task : Bool → Store → String → String → ℕ → Store × Reply
claim_task up b id agent now =
    if up
    then if rows_affected (can_claim id) b.rows == 0 then (b, is_claimed false) else (
      publish (record b { rows = update_where (can_claim id) (claim_row agent now) b.rows })
          (event task_claimed id agent),
      is_claimed true,
    )
    else (b, refused internal)

abbrev pub can_start : String → String → Row → Bool
can_start id agent r = owned id agent r && in_status claimed r

-- The text that a SELECT of the status leaves, which is "" where there is no row.
unfoldable pub is_running : Option Row → Bool
is_running none = false
is_running (some r) = in_status running r

-- Without a row to change, the status is read again; if it is running, that is success.
unfoldable pub start_execution : Bool → Store → String → String → ℕ → Store × Reply
start_execution up b id agent now =
    if up
    then if rows_affected (can_start id agent) b.rows == 0
      then if is_running (find id b.rows)
        then (publish b (event task_running id agent), returned)
        else (b, refused task_not_owned)
      else (
        publish
            (record b { rows = update_where (can_start id agent) (set_status running now) b.rows })
            (event task_running id agent),
        returned,
      )
    else (b, refused internal)

abbrev pub can_end : String → String → Row → Bool
can_end id agent r = owned id agent r && is_active r

unfoldable pub complete_task : Bool → Store → String → String → ℕ → Store × Reply
complete_task up b id agent now =
    announce (event task_completed id agent)
      (exec up (remove_cancel_func b id) (can_end id agent) (set_status done now) task_not_owned)

unfoldable pub fail_task : Bool → Store → String → String → ℕ → Store × Reply
fail_task up b id agent now =
    announce (event task_failed id agent)
      (exec up (remove_cancel_func b id) (can_end id agent) (set_status failed now) task_not_owned)

unfoldable pub renew_lease : Bool → Store → String → String → ℕ → Store × Reply
renew_lease up b id agent now =
    exec up b (can_start id agent) (set_lease claimed now (in_seconds now default_lease_ttl))
      stale_lease

abbrev pub owned_in : RowStatus → String → String → Row → Bool
owned_in s id agent r = owned id agent r && in_status s r

-- `timeout` is the Unix time in seconds at which the person's answer is due.
unfoldable pub suspend_for_hitl : Bool → Store → String → String → ℕ → ℕ → Store × Reply
suspend_for_hitl up b id agent timeout now =
    exec up b (owned_in running id agent) (set_lease suspended now (rfc3339 timeout)) task_not_owned

unfoldable pub resume_from_hitl : Bool → Store → String → String → Bool → ℕ → Store × Reply
resume_from_hitl up b id agent approved now =
    let s = if approved then running else failed in
    exec up b (owned_in suspended id agent) (set_lease s now (in_seconds now default_lease_ttl))
      task_not_owned

unfoldable pub begin_compensation : Bool → Store → String → String → ℕ → Store × Reply
begin_compensation up b id agent now =
    exec up b (owned_in running id agent)
      (set_lease compensating now (in_seconds now compensation_budget)) task_not_owned

unfoldable pub end_compensation : Bool → Store → String → String → ℕ → Store × Reply
end_compensation up b id agent now =
    exec up b (owned_in compensating id agent) (set_status failed now) task_not_owned

-- A row whose expires_at is NULL cannot be scanned into a string: an internal error.
unfoldable pub check_lease : Row → String → ℕ → ℕ → Option Stamp → Reply
check_lease r agent v now none = refused internal
check_lease r agent v now (some t) =
    if not (names r.claimed_by agent)
    then refused stale_lease
    else if not (r.version == v)
    then refused stale_lease
    else if not (in_status running r)
    then refused stale_lease
    else if ltb (unix t * second) now
    then refused stale_lease
    else returned

unfoldable pub check_row : Option Row → String → ℕ → ℕ → Reply
check_row none agent v now = refused task_not_owned
check_row (some r) agent v now = check_lease r agent v now r.expires_at

unfoldable pub side_effect_pre_check : Bool → Store → String → String → ℕ → ℕ → Reply
side_effect_pre_check up b id agent v now =
    if up then check_row (find id b.rows) agent v now else refused internal

unfoldable pub snapshot_status : RowStatus → TaskStatus
snapshot_status pending = Tasks.pending
snapshot_status claimed = Tasks.claimed
snapshot_status running = Tasks.executing
snapshot_status suspended = Tasks.suspended
snapshot_status compensating = Tasks.compensating
snapshot_status done = Tasks.done
snapshot_status failed = Tasks.failed

unfoldable pub snapshot_of : Option Row → Option TaskStatus
snapshot_of none = none
snapshot_of (some r) = some (snapshot_status r.status)

-- The status of the snapshot, and nil for a missing task; `none` is the internal error.
unfoldable pub peek_task : Bool → Store → String → Option (Option TaskStatus)
peek_task up b id = if up then some (snapshot_of (find id b.rows)) else none

unfoldable pub stop_row : String → ℕ → Row → Row
stop_row reason now r = record (touched r now) { status = suspended; suspend_reason = some reason }

unfoldable pub stop_all : Bool → Store → String → ℕ → Store × Reply
stop_all up b reason now =
    if up
    then (
      publish (record b { rows = update_where is_active (stop_row reason now) b.rows })
          (event killswitch_stopall "" ""),
      returned,
    )
    else (b, refused internal)
