-- ===== src/Executor.antt =====
-- pkg/cognition/kernel/dag_executor.go: DAGExecutor.Execute, its rounds and the Saga compensation.
-- The goroutines of a round are steps that an `Event` list interleaves in any order; the tools, the
-- clock and the surprise index are outside the program and enter as the outcomes in the events.
-- The lease heartbeat and latencies are left out. An output is `none` where the Go slice is nil.
pub mod Retry
pub mod Schedule
pub mod Saga
pub mod Causality
pub mod Pending
pub mod Liveness
pub mod Terminates
mod Tests
use Prim.Native.Nat.{Ordering}
use Prim.Native.String.{compare as text_compare}
use polarisagi_harness.Prelude.{
  update, ℕ, zero, suc, Bool, true, false, not, ◌&&◌, Option, none, some, List, [], ◌∷◌, ◌++◌,
  String, length, ltb, str_eq, if◌then◌else◌,
}
use polarisagi_harness.Dag.{
  CompensationAction, ExecNode, DagPlan, Result, TopologyError, ok, err, validate_dag_topology,
}

abbrev pub tier0_max_concurrency : ℕ
tier0_max_concurrency = 4

abbrev pub Output : Type 0
Output = Option (List ℕ)

-- `map[string][]byte`: absent, in progress (nil), or an output.
abbrev pub Completed : Type 0
Completed = String → Option Output

-- Why a node fails: its context ended, the call or the tool failed, or the surprise index asks for
-- replanning.
pub data NodeError : Type 0 where
  context_done surprise : NodeError
  call_failed tool_failed : String → NodeError

pub record NodeResult : Type 0 where
  pub node_id : String
  pub output : Output
  pub failure : Option NodeError

-- What has happened, newest first: the executions that were begun, and their ends.
pub data Entry : Type 0 where
  called : ExecNode → Entry
  returned : ExecNode → Output → Entry
  gave_up : ExecNode → NodeError → Entry

-- `waiting` are the goroutines of the round before they get a place of the semaphore and test
-- `failed`, `running` those that hold a place and execute their node.
pub record Exec : Type 0 where
  pub completed : Completed
  pub executed_undo : List CompensationAction
  pub all_results : List NodeResult
  pub failed : Bool
  pub first_err : Option String
  pub waiting : List ExecNode
  pub running : List ExecNode
  pub log : List Entry

pub initial : Exec
initial = record {
  completed = λ _. none;
  executed_undo = [];
  all_results = [];
  failed = false;
  first_err = none;
  waiting = [];
  running = [];
  log = [];
}

pub has_output : Option Output → Bool
has_output (some (some out)) = true
has_output (some none) = false
has_output none = false

pub all_ready : Completed → List String → Bool
unfolding has_output
all_ready c [] = true
all_ready c (d ∷ ds) = has_output (c d) && all_ready c ds

abbrev pub is_scheduled : Option Output → Bool
is_scheduled none = false
is_scheduled (some o) = true

pub collect_ready : Completed → List ExecNode → List ExecNode
unfolding all_ready
collect_ready c [] = []
collect_ready c (n ∷ ns) =
    let rest = collect_ready c ns in
    if not (is_scheduled (c n.id)) && all_ready c n.depends_on then n ∷ rest else rest

pub id_less : ExecNode → ExecNode → Bool
id_less a b = elim (text_compare a.id b.id) [ Ordering.lt ↦ true | _ ↦ false ]

pub insert_by_id : ExecNode → List ExecNode → List ExecNode
unfolding id_less
insert_by_id n [] = n ∷ []
insert_by_id n (m ∷ ms) = if id_less m n then m ∷ insert_by_id n ms else n ∷ m ∷ ms

-- `sort.Slice`; Go leaves the order of equal ids open.
pub sort_by_id : List ExecNode → List ExecNode
unfolding insert_by_id
sort_by_id [] = []
sort_by_id (n ∷ ns) = insert_by_id n (sort_by_id ns)

pub find_ready_nodes : DagPlan → Completed → List ExecNode
find_ready_nodes plan c = sort_by_id (collect_ready c plan.nodes)

-- `e.completed[node.ID] = nil` for each node of the round.
pub mark_in_progress : Completed → List ExecNode → Completed
unfolding update
mark_in_progress c [] = c
mark_in_progress c (n ∷ ns) = mark_in_progress (update c n.id (some none)) ns

pub data Outcome : Type 0 where
  success : Output → Outcome
  failure : NodeError → Outcome

-- `schedule` starts a round; `start i` lets the i-th waiting goroutine go on; `finish i o` ends the
-- i-th running one with the result of `executeNode`.
pub data Event : Type 0 where
  schedule : Event
  start : ℕ → Event
  finish : ℕ → Outcome → Event

pub take_at {ℓ} : {A : Type ℓ} → ℕ → List A → Option (A × List A)
take_at i [] = none
take_at zero (x ∷ xs) = some (x, xs)
take_at (suc i) (x ∷ xs) = elim (take_at i xs) [ none ↦ none | some (y, ys) ↦ some (y, x ∷ ys) ]

-- A fresh map entry holds the node's output, and a compensation goes to the front of the queue.
abbrev pub undo_of : ExecNode → List CompensationAction → List CompensationAction
undo_of n us = elim n.compensation [
  | none ↦ us
  | some comp ↦ record comp { taint_level = n.taint_level } ∷ us
]

pub start_round : Exec → List ExecNode → Option Exec
start_round s [] = none
start_round s (n ∷ ns) =
    some (record s { completed = mark_in_progress s.completed (n ∷ ns); waiting = n ∷ ns })

pub start_node : Exec → Option (ExecNode × List ExecNode) → Option Exec
start_node s none = none
start_node s (some (n, rest)) =
    if ltb (length s.running) tier0_max_concurrency
    then if s.failed
      then some (record s { waiting = rest })
      else some (record s { waiting = rest; running = n ∷ s.running; log = called n ∷ s.log })
    else none

abbrev pub first_of_two : Option String → String → Option String
first_of_two none e = some e
first_of_two (some e) e' = some e

pub finish_node : Exec → Option (ExecNode × List ExecNode) → Outcome → Option Exec
unfolding update
finish_node s none o = none
finish_node s (some (n, rest)) (success out) = some (record s {
  completed = update s.completed n.id (some out);
  executed_undo = undo_of n s.executed_undo;
  all_results = s.all_results ++ record { node_id = n.id; output = out; failure = none } ∷ [];
  running = rest;
  log = returned n out ∷ s.log;
})
finish_node s (some (n, rest)) (failure e) = some (record s {
  all_results = s.all_results ++ record { node_id = n.id; output = none; failure = some e } ∷ [];
  failed = true;
  first_err = first_of_two s.first_err n.id;
  running = rest;
  log = gave_up n e ∷ s.log;
})

abbrev pub is_idle : Exec → Bool
is_idle s = elim s.waiting [ [] ↦ elim s.running [ [] ↦ true | n ∷ ns ↦ false ] | n ∷ ns ↦ false ]

-- `none`: the event cannot happen now.
pub step : DagPlan → Exec → Event → Option Exec
step plan s schedule =
    if is_idle s && not s.failed then start_round s (find_ready_nodes plan s.completed) else none
step plan s (start i) = start_node s (take_at i s.waiting)
step plan s (finish i o) = finish_node s (take_at i s.running) o

pub run_events : DagPlan → Exec → List Event → Option Exec
run_events plan s [] = some s
run_events plan s (e ∷ es) = elim (step plan s e) [ none ↦ none | some s' ↦ run_events plan s' es ]

-- What Execute returns, and the compensations that runCompensation goes through, in its order; in
-- replay mode it calls none of them, and it stops after thirty seconds.
pub data Verdict : Type 0 where
  topology_error : TopologyError → Verdict
  finished : List NodeResult → Verdict
  compensated : List NodeResult → Option String → List CompensationAction → Verdict

-- The loop ends when a round is over and a node has failed or none is ready.
pub conclude : DagPlan → Exec → Option Verdict
conclude plan s =
    if is_idle s
    then if s.failed
      then some (compensated s.all_results s.first_err s.executed_undo)
      else elim (find_ready_nodes plan s.completed) [
        | [] ↦ some (finished s.all_results)
        | n ∷ ns ↦ none
      ]
    else none

-- Execute under a schedule of events; `none` if the events do not make a whole execution.
pub execute : DagPlan → List Event → Option Verdict
execute plan es = elim (validate_dag_topology plan) [
  | err e ↦ some (topology_error e)
  | ok colors ↦ elim (run_events plan initial es) [ none ↦ none | some s ↦ conclude plan s ]
]
