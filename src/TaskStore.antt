-- ===== src/TaskStore.antt =====
-- pkg/swarm/sqlite_blackboard.go and reaper.go: the Blackboard that keeps its tasks in the table of
-- internal/protocol/schema/007_tasks.sql. A statement is its effect on the list of rows. `up` says
-- whether the database answers a handler, clock readings are nanoseconds, and SQLite's clock is the
-- same. Columns that no handler reads or writes after the insertion are left out.
pub mod Stamp
pub mod Channels
pub mod Rows
pub mod Handlers
pub mod Reaping
pub mod Board
pub mod Table
pub mod Change
pub mod Follows
mod Changes
pub mod Fence
pub mod Owner
pub mod Toxicity
pub mod Lease
mod Tests
