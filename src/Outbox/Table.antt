-- ===== src/Outbox/Table.antt =====
-- The records of the outbox and the queries of FetchBatch.
use polarisagi_harness.Prelude.{
  ℕ, zero, suc, ◌-◌, ◌/◌, Bool, true, false, ◌&&◌, Option, none, some, List, [], ◌∷◌, ◌++◌, String,
  ltb, leb, ◌==◌, str_eq, if◌then◌else◌,
}

pub data Status : Type 0 where
  pending processing done failed dead : Status

pub record Row : Type 0 where
  pub target_engine : String
  pub operation : String
  pub scope : String
  pub payload : String
  pub idempotency_key : String
  pub status : Status
  pub attempts : ℕ
  pub next_retry_at : Option ℕ
  pub crash_recovery_count : ℕ

-- The columns of the table outbox.
unfoldable pub outbox_columns : List String
outbox_columns =
    "id" ∷ "created_at" ∷ "target_engine" ∷ "operation" ∷ "scope" ∷ "payload" ∷ "idempotency_key"
    ∷ "status" ∷ "attempts" ∷ "last_error" ∷ "next_retry_at" ∷ "crash_recovery_count" ∷ []

pub record OutboxRecord : Type 0 where
  pub id : ℕ
  pub target_engine : String
  pub operation : String
  pub scope : String
  pub payload : String
  pub idempotency_key : String
  pub attempts : ℕ
  pub crash_recovery_count : ℕ

-- The engines with a handler.
pub record OutboxWorker : Type 0 where
  pub handlers : String → Bool
  pub max_retries : ℕ

unfoldable pub new_outbox_worker : ℕ → OutboxWorker
new_outbox_worker max_retries = record {
  handlers = λ e. false;
  max_retries = if max_retries == 0 then 3 else max_retries;
}

unfoldable pub register_handler : OutboxWorker → String → OutboxWorker
register_handler w task_type = record w {
  handlers = λ e. if str_eq e task_type then true else w.handlers e;
}

-- The database, the worker's cursor, and the ids that were handed to a handler, the latest first.
pub record State : Type 0 where
  pub rows : ℕ → Option Row
  pub last_id : ℕ
  pub saved_cursor : ℕ
  pub cursor : ℕ
  pub calls : List ℕ

-- What a tick meets: the answers to the two queries, the clock at the fetch and at each mark,
-- whether events are replayed, what the handler answers, and which writes get through.
pub record World : Type 0 where
  pub read : Bool
  pub read_more : Bool
  pub now : ℕ
  pub marked_at : ℕ → ℕ
  pub replaying : Bool
  pub handler_succeeds : ℕ → Bool
  pub up : ℕ → Bool
  pub save_up : Bool

abbrev is_past : ℕ → Option ℕ → Bool
is_past now none = true
is_past now (some t) = leb t now

unfoldable pub is_failed : Status → Bool
is_failed pending = false
is_failed processing = false
is_failed done = false
is_failed failed = true
is_failed dead = false

unfoldable pub is_open : Status → Bool
is_open pending = true
is_open processing = false
is_open done = false
is_open failed = true
is_open dead = false

unfoldable pub main_query : ℕ → Row → Bool
main_query now r = is_open r.status && is_past now r.next_retry_at

unfoldable pub supp_query : ℕ → Row → Bool
supp_query now r = is_failed r.status && is_past now r.next_retry_at

unfoldable pub record_of : ℕ → Row → OutboxRecord
record_of id r = record {
  id = id;
  target_engine = r.target_engine;
  operation = r.operation;
  scope = r.scope;
  payload = r.payload;
  idempotency_key = r.idempotency_key;
  attempts = r.attempts;
  crash_recovery_count = r.crash_recovery_count;
}

unfoldable pub passes : (Row → Bool) → Option Row → Bool
passes p none = false
passes p (some r) = p r

unfoldable pub and_row : ℕ → Option Row → List OutboxRecord → List OutboxRecord
and_row id none rs = rs
and_row id (some r) rs = record_of id r ∷ rs

-- ORDER BY id LIMIT: at most `limit` rows of the `room` ids from `id` on.
unfoldable pub select : (Row → Bool) → (ℕ → Option Row) → ℕ → ℕ → ℕ → List OutboxRecord
select p rows zero limit id = []
select p rows (suc room) zero id = []
select p rows (suc room) (suc limit) id =
    let skip = select p rows room (suc limit) (suc id) in
    let take = and_row id (rows id) (select p rows room limit (suc id)) in
    if passes p (rows id) then take else skip

unfoldable pub supplement : World → State → ℕ → List OutboxRecord
supplement a s batch_size =
    if ltb 0 s.cursor && ltb 4 batch_size && a.read_more
    then select (supp_query a.now) s.rows s.cursor (batch_size / 4) 1
    else []

-- FetchBatch
unfoldable pub fetch_batch : World → State → ℕ → Option (List OutboxRecord)
fetch_batch a s batch_size =
    if a.read
    then some (
        select (main_query a.now) s.rows (s.last_id - s.cursor) batch_size (suc s.cursor)
        ++ supplement a s batch_size)
    else none
