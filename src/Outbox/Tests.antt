-- ===== src/Outbox/Tests.antt =====
-- A record on its way, and the theorems at work on it.
use polarisagi_harness.Prelude.{
  ℕ, suc, ◌≤◌, ◌≡◌, refl, Bool, true, false, none, some, List, [], ◌∷◌, arith,
}
use polarisagi_harness.Outbox.Table.{
  Row, OutboxWorker, State, World, new_outbox_worker, register_handler, is_failed, is_open,
  main_query, supp_query, record_of, passes, and_row, select, supplement, fetch_batch,
  outbox_columns,
}
use polarisagi_harness.Outbox.Worker.{
  set_row, update_row, has_column, has_columns, is_handled, process, mark, process_and_mark,
  process_all, max_id, advance, process_batch, tick, new_row, set_failed, Op, round, restart,
  enqueue, apply, run_ops,
}
use polarisagi_harness.Outbox.Forgotten.{count, IsPassed, forgotten}
use polarisagi_harness.Outbox.Endless.{AllOpen, last_attempt_stays, nothing_ends}
use polarisagi_harness.Outbox.Delivery.{round_delivers}

abbrev worker : OutboxWorker
worker = register_handler (new_outbox_worker 3) "engine"

abbrev empty : State
empty = record { rows = λ k. none; last_id = 0; saved_cursor = 0; cursor = 0; calls = [] }

-- A round at a time, with the answer of the handler and of the database.
abbrev at_time : ℕ → Bool → Bool → World
at_time t ok up = record {
  read = true;
  read_more = true;
  now = t;
  marked_at = λ k. t;
  replaying = false;
  handler_succeeds = λ k. ok;
  up = λ k. up;
  save_up = true;
}

abbrev post : Op
post = enqueue "engine" "upsert" "scope" "payload" "key"

abbrev first : Row
first = new_row "engine" "upsert" "scope" "payload" "key"

round_delivers_example :
    let s = run_ops worker empty (post ∷ []) in
    suc (count 1 s.calls) ≤ count 1 (tick worker (at_time 1 true true) s).calls
unfolding run_ops apply set_row tick fetch_batch select supplement process_batch process_all
    process_and_mark process mark update_row is_handled max_id advance main_query is_open passes
    and_row record_of has_columns has_column outbox_columns register_handler new_outbox_worker
round_delivers_example =
    round_delivers worker (at_time 1 true true) (run_ops worker empty (post ∷ [])) 1 first refl refl
      refl (omega arith) (omega arith)

-- Two attempts have failed.
abbrev twice : State
twice =
    run_ops worker empty
      (post ∷ round (at_time 1 false true) ∷ round (at_time 20000 false true) ∷ [])

abbrev last_try : Row
last_try = set_failed 2 40000 first

-- From now on the handler succeeds, and is called in each round.
abbrev successes : List Op
successes =
    round (at_time 50000 true true)
    ∷ round (at_time 55000 true true)
    ∷ restart true
    ∷ round (at_time 60000 true true)
    ∷ []

last_attempt_stays_example : (run_ops worker twice successes).rows 1 ≡ some last_try
unfolding run_ops apply set_row tick fetch_batch select supplement process_batch process_all
    process_and_mark process mark update_row is_handled max_id advance main_query supp_query is_open
    is_failed passes and_row record_of has_columns has_column outbox_columns register_handler
    new_outbox_worker
last_attempt_stays_example =
    last_attempt_stays worker successes twice 1 last_try refl (omega arith) (omega arith)

called_each_time : (run_ops worker twice successes).calls ≡ 1 ∷ 1 ∷ 1 ∷ twice.calls
unfolding run_ops apply set_row tick fetch_batch select supplement process_batch process_all
    process_and_mark process mark update_row is_handled max_id advance main_query supp_query is_open
    is_failed passes and_row record_of has_columns has_column outbox_columns register_handler
    new_outbox_worker
called_each_time = refl

empty-AllOpen : AllOpen empty.rows
empty-AllOpen k r e = ground (arith, e)

nothing_ends_example : is_open last_try.status ≡ true
unfolding run_ops apply set_row tick fetch_batch select supplement process_batch process_all
    process_and_mark process mark update_row is_handled max_id advance main_query supp_query is_open
    is_failed passes and_row record_of has_columns has_column outbox_columns register_handler
    new_outbox_worker
nothing_ends_example =
    nothing_ends worker
      (post ∷ round (at_time 1 false true) ∷ round (at_time 20000 false true) ∷ []) empty
      empty-AllOpen 1 last_try refl

-- The handler has failed, and the update of the row was refused.
abbrev lost : State
lost = run_ops worker empty (post ∷ round (at_time 1 false false) ∷ [])

abbrev later : List Op
later = round (at_time 10000 true true) ∷ restart true ∷ round (at_time 20000 true true) ∷ []

lost-IsPassed : IsPassed lost 1 first
unfolding run_ops apply set_row tick fetch_batch select supplement process_batch process_all
    process_and_mark process mark update_row is_handled max_id advance main_query is_open passes
    and_row record_of has_columns has_column outbox_columns register_handler new_outbox_worker
lost-IsPassed = record {
  row = refl;
  waits = refl;
  below = omega arith;
  order = omega arith;
  known = omega arith;
}

forgotten_example :
    ((run_ops worker lost later).rows 1 ≡ some first)
    × (count 1 (run_ops worker lost later).calls ≡ count 1 lost.calls)
forgotten_example = forgotten worker later lost 1 first lost-IsPassed (tt, (refl, (tt, tt)))
