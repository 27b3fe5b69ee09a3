-- ===== src/Outbox.antt =====
-- pkg/substrate/outbox_worker.go on the table of internal/protocol/schema/002_outbox.sql.
-- The table maps ids to rows, ids are given out in order. Handlers, clock readings and the answers
-- of the database are arguments of a tick. Attempts stay far below 50, where a backoff would overflow.
mod Table
mod Worker
mod Keeps
mod Forgotten
mod Endless
mod Selection
mod Delivery
mod Tests
