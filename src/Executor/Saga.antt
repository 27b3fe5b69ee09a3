-- ===== src/Executor/Saga.antt =====
-- What an execution keeps count of: concurrency, failure and the compensations that are due.
use polarisagi_harness.Prelude.{
  suc, ◌≤◌, ◌≡◌, refl, Bool, true, false, Option, none, some, List, [], ◌∷◌, arith, length,
}
use polarisagi_harness.Dag.{CompensationAction, DagPlan, ExecNode}
use polarisagi_harness.Executor.Schedule.{length-take_at, run_events_inv}
use polarisagi_harness.Executor.{
  Entry, called, returned, gave_up, Exec, Event, schedule, start, finish, Outcome, success, failure,
  initial, undo_of, take_at, start_round, start_node, finish_node, step, run_events,
  find_ready_nodes, tier0_max_concurrency,
}

-- The compensations of the nodes that have returned, the latest first.
abbrev pub undos : List Entry → List CompensationAction
undos [] = []
undos (called n ∷ l) = undos l
undos (returned n o ∷ l) = undo_of n (undos l)
undos (gave_up n e ∷ l) = undos l

abbrev pub any_gave_up : List Entry → Bool
any_gave_up [] = false
any_gave_up (called n ∷ l) = any_gave_up l
any_gave_up (returned n o ∷ l) = any_gave_up l
any_gave_up (gave_up n e ∷ l) = true

-- No node was begun after one had given up.
abbrev pub IsQuiet : List Entry → Type 0
IsQuiet [] = Unit
IsQuiet (called n ∷ l) = (any_gave_up l ≡ false) × IsQuiet l
IsQuiet (returned n o ∷ l) = IsQuiet l
IsQuiet (gave_up n e ∷ l) = IsQuiet l

pub record Inv (s : Exec) : Type 0 where
  pub undo : s.executed_undo ≡ undos s.log
  pub failing : s.failed ≡ any_gave_up s.log
  pub quiet : IsQuiet s.log
  pub bounded : length s.running ≤ tier0_max_concurrency

initial-Inv : Inv initial
unfolding initial
initial-Inv = record { undo = refl; failing = refl; quiet = tt; bounded = omega arith }

start_node-Inv :
    (s s' : Exec) (r : Option (ExecNode × List ExecNode))
    → start_node s r ≡ some s'
    → Inv s
    → Inv s'
unfolding start_node
start_node-Inv s s' none e v = cc
start_node-Inv s s' (some (n, rest)) e v = ground arith

start_round-Inv : (s s' : Exec) (ns : List ExecNode) → start_round s ns ≡ some s' → Inv s → Inv s'
unfolding start_round
start_round-Inv s s' [] e v = cc
start_round-Inv s s' (n ∷ ns) e v = ground arith

finish_node-Inv :
    (s s' : Exec) (r : Option (ExecNode × List ExecNode)) (o : Outcome)
    → ((n : ExecNode) (rest : List ExecNode)
        → r ≡ some (n, rest)
        → length s.running ≡ suc (length rest))
    → finish_node s r o ≡ some s'
    → Inv s
    → Inv s'
unfolding finish_node
finish_node-Inv s s' none o m e v = cc
finish_node-Inv s s' (some (n, rest)) (success out) m e v = ground (arith, m n rest refl)
finish_node-Inv s s' (some (n, rest)) (failure x) m e v = ground (arith, m n rest refl)

step-Inv : (plan : DagPlan) (s s' : Exec) (e : Event) → step plan s e ≡ some s' → Inv s → Inv s'
unfolding step
step-Inv plan s s' schedule e v =
    start_round-Inv s s' (find_ready_nodes plan s.completed) (ground arith) v
step-Inv plan s s' (start i) e v = start_node-Inv s s' (take_at i s.waiting) e v
step-Inv plan s s' (finish i o) e v =
    finish_node-Inv s s' (take_at i s.running) o (length-take_at i s.running) e v

pub run_events-Inv :
    (plan : DagPlan) (es : List Event) (s : Exec) → run_events plan initial es ≡ some s → Inv s
run_events-Inv plan es s e = run_events_inv plan Inv (step-Inv plan) es initial s e initial-Inv

-- At every moment of every schedule at most four nodes run, and none was begun after a node gave up.
pub concurrency_bounded :
    (plan : DagPlan) (es : List Event) (s : Exec)
    → run_events plan initial es ≡ some s
    → (length s.running ≤ tier0_max_concurrency) × IsQuiet s.log
concurrency_bounded plan es s e = let v = run_events-Inv plan es s e in (v.bounded, v.quiet)
