-- ===== src/Outbox/Worker.antt =====
-- Processing and marking of a batch, the cursor, and the worker in use.
use polarisagi_harness.Prelude.{
  ℕ, suc, ◌+◌, ◌*◌, ◌^◌, Bool, true, false, not, ◌&&◌, ◌||◌, Option, none, some, List, [], ◌∷◌,
  String, ltb, leb, ◌==◌, str_eq, if◌then◌else◌,
}
use polarisagi_harness.Outbox.Table.{
  pending, done, failed, dead, Row, outbox_columns, OutboxRecord, OutboxWorker, State, World,
  fetch_batch,
}

unfoldable pub set_row : (ℕ → Option Row) → ℕ → Option Row → ℕ → Option Row
set_row rows id row k = if k == id then row else rows k

abbrev pub map_row : (Row → Row) → Option Row → Option Row
map_row f none = none
map_row f (some r) = some (f r)

unfoldable pub has_column : String → List String → Bool
has_column c [] = false
has_column c (d ∷ ds) = if str_eq c d then true else has_column c ds

unfoldable pub has_columns : List String → Bool
has_columns [] = true
has_columns (c ∷ cs) = has_column c outbox_columns && has_columns cs

-- UPDATE outbox SET ... WHERE id=?, whose error is dropped: a column that is not there refuses it.
unfoldable pub update_row : List String → Bool → State → ℕ → (Row → Row) → State
update_row columns up s id f =
    if up && has_columns columns
    then record s { rows = set_row s.rows id (map_row f (s.rows id)) }
    else s

-- Process calls the handler.
unfoldable pub is_handled : OutboxWorker → World → OutboxRecord → Bool
is_handled w a r =
    not a.replaying && not (leb 3 r.crash_recovery_count) && w.handlers r.target_engine

unfoldable pub process : OutboxWorker → World → State → OutboxRecord → State × Bool
process w a s r =
    if is_handled w a r
    then (record s { calls = r.id ∷ s.calls }, a.handler_succeeds r.id)
    else (s, true)

abbrev set_done : Row → Row
set_done r = record r { status = done }

abbrev set_dead : ℕ → Row → Row
set_dead n r = record r { status = dead; attempts = n }

abbrev pub set_failed : ℕ → ℕ → Row → Row
set_failed n t r = record r { status = failed; attempts = n; next_retry_at = some t }

unfoldable pub mark : OutboxWorker → World → State → OutboxRecord → Bool → State
mark w a s r ok =
    if ok
    then update_row ("status" ∷ "processed_at" ∷ []) (a.up r.id) s r.id set_done
    else if leb w.max_retries (suc r.attempts) || leb 3 r.crash_recovery_count
    then update_row ("status" ∷ "attempts" ∷ "processed_at" ∷ []) (a.up r.id) s r.id
        (set_dead (suc r.attempts))
    else update_row ("status" ∷ "attempts" ∷ "next_retry_at" ∷ []) (a.up r.id) s r.id
        (set_failed (suc r.attempts) (a.marked_at r.id + 2 ^ suc r.attempts * 5000))

unfoldable pub process_and_mark : OutboxWorker → World → State → OutboxRecord → State
process_and_mark w a s r = let (s', ok) = process w a s r in mark w a s' r ok

unfoldable pub process_all : OutboxWorker → World → State → List OutboxRecord → State
process_all w a s [] = s
process_all w a s (r ∷ rs) = process_all w a (process_and_mark w a s r) rs

unfoldable pub max_id : ℕ → List OutboxRecord → ℕ
max_id m [] = m
max_id m (r ∷ rs) = max_id (if ltb m r.id then r.id else m) rs

-- The rest of Run's round: the cursor moves, and is saved, if it has grown.
unfoldable pub advance : World → State → ℕ → State
advance a s new_cursor =
    if ltb s.cursor new_cursor
    then record s {
      cursor = new_cursor;
      saved_cursor = if a.save_up then new_cursor else s.saved_cursor;
    }
    else s

unfoldable pub process_batch : OutboxWorker → World → State → Option (List OutboxRecord) → State
process_batch w a s none = s
process_batch w a s (some rs) = advance a (process_all w a s rs) (max_id s.cursor rs)

unfoldable pub tick : OutboxWorker → World → State → State
tick w a s = process_batch w a s (fetch_batch a s 50)

abbrev pub new_row : String → String → String → String → String → Row
new_row engine operation scope payload key = record {
  target_engine = engine;
  operation = operation;
  scope = scope;
  payload = payload;
  idempotency_key = key;
  status = pending;
  attempts = 0;
  next_retry_at = none;
  crash_recovery_count = 0;
}

-- A round, a restart of the process, whose loadCursor may fail to read, and a record that another part puts into the outbox.
pub data Op : Type 0 where
  round : World → Op
  restart : Bool → Op
  enqueue : String → String → String → String → String → Op

unfoldable pub apply : OutboxWorker → State → Op → State
apply w s (round a) = tick w a s
apply w s (restart read) = record s { cursor = if read then s.saved_cursor else 0 }
apply w s (enqueue engine operation scope payload key) = record s {
  rows = set_row s.rows (suc s.last_id) (some (new_row engine operation scope payload key));
  last_id = suc s.last_id;
}

unfoldable pub run_ops : OutboxWorker → State → List Op → State
run_ops w s [] = s
run_ops w s (o ∷ os) = run_ops w (apply w s o) os
