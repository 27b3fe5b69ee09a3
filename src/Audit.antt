-- ===== src/Audit.antt =====
-- pkg/substrate/audit_trail.go: the chain of hashed records and its copy in the table events
-- (internal/protocol/schema/001_events.sql).
-- Texts are lists of bytes. SHA-256 and the JSON of a record are parameters. Records and rows are
-- listed the newest first, clock readings and the answers of the database are arguments.
mod Records
mod Trail
mod Startup
mod Readable
mod Chain
mod Tamper
mod Recovery
mod Nameless
mod Tests
