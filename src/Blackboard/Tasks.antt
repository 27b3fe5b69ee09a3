-- ===== src/Blackboard/Tasks.antt =====
-- The tasks, the event channel with a handler that waits to send, and the posting of tasks.
use polarisagi_harness.Prelude.{
  ℕ, ◌*◌, Bool, true, false, Option, none, some, List, [], ◌∷◌, ◌++◌, String, length, insert, ltb,
  ◌==◌, if◌then◌else◌,
}

pub data TaskStatus : Type 0 where
  pending claimed executing suspended compensating done failed : TaskStatus

abbrev pub status_index : TaskStatus → ℕ
status_index pending = 0
status_index claimed = 1
status_index executing = 2
status_index suspended = 3
status_index compensating = 4
status_index done = 5
status_index failed = 6

abbrev pub has_status : TaskStatus → TaskStatus → Bool
has_status s t = status_index s == status_index t

pub record TaskEntry : Type 0 where
  pub id : String
  pub kind : String
  pub priority : ℕ
  pub status : TaskStatus
  pub claimed_by : String
  pub claimed_at : ℕ
  pub expires_at : ℕ
  pub toxicity : ℕ
  pub intent : List ℕ
  pub intent_taint : ℕ
  pub result : List ℕ
  pub result_taint : ℕ
  pub depends_on : List String
  pub sub_tasks : List String
  pub deadline : ℕ
  pub spawn_depth : ℕ
  pub created_at : ℕ
  pub updated_at : ℕ

pub record TaskSnapshot : Type 0 where
  pub id : String
  pub status : TaskStatus
  pub result : List ℕ

pub record BlackboardEvent : Type 0 where
  pub kind : String
  pub task_id : String
  pub agent_id : String
  pub payload : List ℕ
  pub timestamp : ℕ

pub data BlackboardError : Type 0 where
  task_not_found stale_lease backpressure_active : BlackboardError

-- `events` is the buffered channel, oldest first. `sender` is the event of a handler that found the
-- channel full: it waits in the send and holds the mutex.
pub record Blackboard : Type 0 where
  pub tasks : List (String × TaskEntry)
  pub events : List BlackboardEvent
  pub capacity : ℕ
  pub backpressure : Bool
  pub epoch : ℕ
  pub sender : Option BlackboardEvent

-- What a handler returns; `waits` if it does not return yet.
pub data Reply : Type 0 where
  returned waits : Reply
  is_claimed : Bool → Reply
  refused : BlackboardError → Reply

unfoldable pub new_blackboard : Blackboard
new_blackboard = record {
  tasks = [];
  events = [];
  capacity = 1024;
  backpressure = false;
  epoch = 0;
  sender = none;
}

-- On above 80% of the channel, off below 50%. In float64 the products are within rounding of these
-- and at 1024 the comparisons with whole numbers are the same.
unfoldable pub check_backpressure : Blackboard → Blackboard
check_backpressure b =
    if b.capacity == 0
    then b
    else if ltb (8 * b.capacity) (10 * length b.events)
    then record b { backpressure = true }
    else if ltb (10 * length b.events) (5 * b.capacity)
    then record b { backpressure = false }
    else b

-- `select { case b.events <- e: default: }`
unfoldable pub try_send : Blackboard → BlackboardEvent → Blackboard
try_send b e =
    if ltb (length b.events) b.capacity then record b { events = b.events ++ e ∷ [] } else b

-- `b.events <- e`
unfoldable pub send : Blackboard → BlackboardEvent → Reply → Blackboard × Reply
send b e r =
    if ltb (length b.events) b.capacity
    then (record b { events = b.events ++ e ∷ [] }, r)
    else (record b { sender = some e }, waits)

abbrev pub posted_event : TaskEntry → ℕ → BlackboardEvent
posted_event e now = record {
  kind = "task_posted";
  task_id = e.id;
  agent_id = "";
  payload = [];
  timestamp = now;
}

-- The entry as it is posted.
abbrev pub stamped : TaskEntry → ℕ → TaskEntry
stamped e now = record e { created_at = now; updated_at = now; status = pending }

unfoldable pub post_entry : Blackboard → TaskEntry → ℕ → Blackboard
post_entry b e now =
    try_send (record b { tasks = insert e.id (stamped e now) b.tasks }) (posted_event e now)

unfoldable pub post_entries : Blackboard → List TaskEntry → ℕ → Blackboard
post_entries b [] now = b
post_entries b (e ∷ es) now = post_entries (post_entry b e now) es now

unfoldable pub post_task : Blackboard → TaskEntry → ℕ → Blackboard × Reply
post_task b e now =
    let c = check_backpressure b in
    if c.backpressure then (c, refused backpressure_active) else (post_entry c e now, returned)

unfoldable pub post_batch : Blackboard → List TaskEntry → ℕ → Blackboard × Reply
post_batch b es now =
    let c = check_backpressure b in
    if c.backpressure then (c, refused backpressure_active) else (post_entries c es now, returned)
