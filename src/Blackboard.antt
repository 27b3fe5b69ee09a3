-- ===== src/Blackboard.antt =====
-- pkg/swarm/blackboard.go: the in-memory Blackboard, where tasks are posted and agents claim them;
-- its types are in internal/protocol/types.go. A handler's clock reading is an argument, times are
-- seconds. The map's entries belong to the board: a caller that keeps the pointer it posted does
-- not write to it. The registered agents, which no handler reads, are left out.
pub mod Tasks
pub mod Handlers
pub mod Requests
pub mod Owner
pub mod Exclusive
pub mod Status
pub mod Channel
pub mod Fence
mod Tests
