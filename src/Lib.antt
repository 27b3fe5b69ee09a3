-- ===== src/Lib.antt =====
-- Verification of polarisagi-harness, an agent runtime in Go: an agent plans a directed acyclic
-- graph of tool calls, has the plan validated, executes it, and reflects on it.
--
-- The parts and how they interact. The kernel's state machine
-- (pkg/cognition/kernel/state_machine.go and transitions.go) is sent triggers by the agent and
-- returns the effects to run. In S_VALIDATE the effect is ValidateDAG (dag_validator.go), whose
-- first layer is validateDAGTopology; in S_EXECUTE it is DAGExecutor.Execute (dag_executor.go),
-- which runs the same plan. Data in a plan carries a taint level (internal/protocol/types.go),
-- which pkg/substrate/taint.go, taint_sanitizer.go and policy/taint_gate.go track, lower and
-- test. Agents share tasks through the Blackboard (pkg/swarm/blackboard.go). The KillSwitch
-- (pkg/substrate/killswitch.go) throttles, pauses and stops the whole, the circuit breaker
-- (pkg/substrate/fallback.go) holds back calls of providers, the context window
-- (pkg/cognition/memory/working_mem.go) keeps what the model is shown within its budget, and the
-- credential pool (pkg/substrate/inference/credential_pool.go) picks the API key of a call and
-- rests a key that failed. Agents run under a supervisor (pkg/swarm/supervisor/tree.go), which
-- restarts them after a crash, and act with capability tokens
-- (pkg/substrate/policy/capability_token.go). The durable Blackboard
-- (pkg/swarm/sqlite_blackboard.go) keeps its tasks in SQLite. Tasks that recur are timed by cron
-- expressions (pkg/edge/scheduler/cron.go), and by the gateway's automations
-- (pkg/gateway/server/cron.go). What was decided is recorded in a chain of hashes
-- (pkg/substrate/audit_trail.go), and what is written for other engines waits in an outbox
-- (pkg/substrate/outbox_worker.go).
--
-- The files. The parent of a component holds its definitions, the files below it the proofs;
-- where there is much of it, files below it hold the definitions too.
--   Prelude: shared names, Boolean tests, lists, maps.
--   Protocol: AgentState, AgentTrigger.
--   StateMachine: Dispatch is `dispatch`, whose last part is `table_step`, `try_edge` and
--     `take_edge`; registerTransitions is `register_transitions`; a guard reads the counter of
--     replans. Table computes the diagram of the table, Laws what one call does, and Replan,
--     Gate, Interrupts and Progress follow runs.
--   Itoa: itoa64, itoa and nextEventID, on lists of bytes; a panic is `none`.
--   FallbackFsm: pkg/cognition/fsm.go.
--   Dag: the plan and validateDAGTopology. Search follows the depth-first search, Acyclic and
--     Shape say what an accepted plan looks like, Adjacency relates the map to the nodes.
--   Executor: Execute. The goroutines of a round are interleaved by a list of events (`schedule`,
--     `start`, `finish`), and every theorem is about all such lists. Saga, Causality, Pending,
--     Liveness and Terminates are its invariants; Retry is executeNode.
--   Validator: ValidateDAG and its layers.
--   Taint: levels, tracker, sanitizers, slot gate, envelopes.
--   Blackboard: pkg/swarm/blackboard.go, in Tasks, Handlers and Requests. Each handler is an
--     action on the entry of its task. A send on a full channel leaves the event in `sender`,
--     which stands for the handler that waits and holds the mutex.
--   KillSwitch, Breaker: the machines with their clock readings as arguments.
--   ContextWindow: Append, Compress and the eviction by score.
--   Credentials: pkg/substrate/inference/credential_pool.go. Picking says what a pick returns,
--     Rotation and LeastUsed are about single strategies, Pool about runs of a pool.
--   Supervisor: runWorker of pkg/swarm/supervisor/tree.go, a round of whose loop is `round`.
--     Restarts relates its counter to the crash times, Loops is about repeated crashes, Waiting
--     about backoffs.
--   TaskStore: pkg/swarm/sqlite_blackboard.go and reaper.go. Stamp has the texts of times, Rows
--     the statements, Handlers and Reaping the methods, and Board puts calls and reaps in any
--     order. Change lists the ways in which a row changes, Table, Follows and Changes relate the
--     operations to them, and Fence, Owner and Toxicity are inductions over them; Lease is about
--     the expiry.
--   Text, Cron: pkg/edge/scheduler/cron.go, on texts as lists of bytes, with the ASCII white
--     space alone. Ranges and Bounds are about the parser, Search about NextAfter, Caching about
--     CronEvalCache, Failures about CronRunner.
--   Automation: pkg/gateway/server/cron.go, in Schedule, Table and Ticks. Reading and Agreement
--     compare its reading of a field with Cron's, Runs is about what a tick starts after a run.
--   Audit: pkg/substrate/audit_trail.go, in Records, Trail and Startup. Readable says which
--     records JSON reads back, Chain is about the chain in memory, Tamper about what its hashes
--     pin down, Recovery about restarts, Nameless about records without an id.
--   Outbox: pkg/substrate/outbox_worker.go, in Table and Worker. Keeps says what a round leaves
--     as it was, Selection what its queries return, Delivery what it hands to handlers, Endless
--     and Forgotten are about records that it retries for ever or loses.
--   Tokens: pkg/substrate/policy/capability_token.go. Revocation follows the queue of revoked
--     ids, Validity says which tokens Verify accepts.
--
-- Fuel. The depth-first search recurs on the room that its own depth limit leaves, `max_depth`,
-- and fails where the code fails. `compress_loop` has the number of messages as fuel: each round
-- takes a message out or is the last. itoa64 recurs on the room in its buffer. `attempts` recurs
-- on the attempts that are left. The loop over a range of a cron field has fuel, which
-- `Cron.Ranges.add_range_exact` bounds. `decimal` has a round for each unit of the number that it
-- prints, and one more. Nothing else needs fuel.
--
-- Numbers. Counters, times and levels are natural numbers, as they are never below 0 in use; the
-- wrap-around of a Duration is written out in `backoff` of Executor/Retry; in the one of
-- Supervisor the conversion of a number too large is a parameter. Floating-point scores of the
-- context window are counted in quarters, and the bounds of the backpressure are compared as
-- products.
--
-- What is not modelled: prompts and the parsing of model answers; the lease heartbeat and
-- latencies of the executor, and the outcomes of the compensating calls; floats of the health
-- score and of the burn rate; databases beyond the tables of tasks and automations, the outbox
-- and the trail's part of events; the mutation bus and the event buffer; budgets, the resource
-- governor and the recovery of providers; HTTP servers, channels, extensions, adapters and the
-- command line. The policy engine, the tool registry, the model, the hash functions, the
-- signature scheme, the tools and the clock are parameters.
pub mod Prelude
pub mod Protocol
pub mod StateMachine
pub mod Itoa
pub mod FallbackFsm
pub mod Dag
pub mod Executor
pub mod Validator
pub mod Taint
pub mod Blackboard
pub mod KillSwitch
pub mod Breaker
pub mod ContextWindow
pub mod Credentials
pub mod Supervisor
pub mod Tokens
pub mod TaskStore
pub mod Text
pub mod Cron
pub mod Automation
pub mod Audit
pub mod Outbox
