-- ===== src/Executor/Causality.antt =====
-- A node is begun only when its dependencies have produced their outputs.
use mathlib.Core.Path.{subst}
use mathlib.Core.Option.{some-injective}
use polarisagi_harness.Prelude.{
  ltb, ℕ, ◌≡◌, refl, ◌⊎◌, inl, inr, true, not, ◌&&◌, Option, none, some, List, [], ◌∷◌, arith,
  length, Option-cases, Bool-cases, String, All, All-map, str_eq, str_eq_iff, update, update_lem,
}
use polarisagi_harness.Dag.{DagPlan, ExecNode}
use polarisagi_harness.Executor.{
  Output, Completed, Entry, called, returned, gave_up, Exec, Event, schedule, start, finish,
  Outcome, success, failure, initial, tier0_max_concurrency, take_at, start_round, start_node,
  finish_node, step, run_events, find_ready_nodes, collect_ready, all_ready, mark_in_progress,
  is_scheduled,
}
use polarisagi_harness.Executor.Schedule.{none_ne_some, All-take_at, sort_by_id-All, run_events_inv}

-- A node with this id has returned an output (a slice that is not nil).
abbrev pub HasReturned : List Entry → String → Type 0
HasReturned [] d = ⊥
HasReturned (called n ∷ l) d = HasReturned l d
HasReturned (returned n (some out) ∷ l) d = (n.id ≡ d) ⊎ HasReturned l d
HasReturned (returned n none ∷ l) d = HasReturned l d
HasReturned (gave_up n e ∷ l) d = HasReturned l d

abbrev pub IsReady : List Entry → ExecNode → Type 0
IsReady l n = All (HasReturned l) n.depends_on

-- Each node that was begun was ready then.
abbrev pub IsCausal : List Entry → Type 0
IsCausal [] = Unit
IsCausal (called n ∷ l) = IsReady l n × IsCausal l
IsCausal (returned n o ∷ l) = IsCausal l
IsCausal (gave_up n e ∷ l) = IsCausal l

record Inv (s : Exec) : Type 0 where
  causal : IsCausal s.log
  outputs : (d : String) (out : List ℕ) → s.completed d ≡ some (some out) → HasReturned s.log d
  waiting : All (IsReady s.log) s.waiting

HasReturned-cons :
    (x : Entry) (l : List Entry) (d : String) → HasReturned l d → HasReturned (x ∷ l) d
HasReturned-cons (called n) l d h = h
HasReturned-cons (returned n (some o)) l d h = inr h
HasReturned-cons (returned n none) l d h = h
HasReturned-cons (gave_up n e) l d h = h

IsReady-cons : (x : Entry) (l : List Entry) (n : ExecNode) → IsReady l n → IsReady (x ∷ l) n
IsReady-cons x l n h =
    All-map (HasReturned l) (HasReturned (x ∷ l)) n.depends_on (HasReturned-cons x l) h

all_ready-All :
    (c : Completed) (l : List Entry)
    → ((d : String) (out : List ℕ) → c d ≡ some (some out) → HasReturned l d)
    → (ds : List String) → all_ready c ds ≡ true
    → All (HasReturned l) ds
unfolding all_ready
all_ready-All c l h [] e = tt
all_ready-All c l h (d ∷ ds) e = elim (Option-cases (c d)) [
  | inl n ↦ absurd (ground (arith, n))
  | inr (none, q) ↦ absurd (ground (arith, q))
  | inr (some out, q) ↦ (h d out q, all_ready-All c l h ds (ground (arith, q)))
]

collect_ready-All :
    (c : Completed) (l : List Entry)
    → ((d : String) (out : List ℕ) → c d ≡ some (some out) → HasReturned l d)
    → (ns : List ExecNode) → All (IsReady l) (collect_ready c ns)
unfolding collect_ready
collect_ready-All c l h [] = tt
collect_ready-All c l h (n ∷ ns) =
    elim (Bool-cases (not (is_scheduled (c n.id)) && all_ready c n.depends_on)) [
      | inl t ↦ rw t (all_ready-All c l h n.depends_on (ground arith), collect_ready-All c l h ns)
      | inr f ↦ rw f (collect_ready-All c l h ns)
    ]

find_ready_nodes-All :
    (plan : DagPlan) (c : Completed) (l : List Entry)
    → ((d : String) (out : List ℕ) → c d ≡ some (some out) → HasReturned l d)
    → All (IsReady l) (find_ready_nodes plan c)
unfolding find_ready_nodes
find_ready_nodes-All plan c l h =
    sort_by_id-All (IsReady l) (collect_ready c plan.nodes) (collect_ready-All c l h plan.nodes)

-- Marking nodes as in progress makes up no output.
mark_in_progress-output :
    (c : Completed) (ns : List ExecNode) (d : String) (out : List ℕ)
    → mark_in_progress c ns d ≡ some (some out)
    → c d ≡ some (some out)
unfolding mark_in_progress
mark_in_progress-output c [] d out e = e
mark_in_progress-output c (n ∷ ns) d out e =
    let q = mark_in_progress-output (update c n.id (some none)) ns d out e in
    ground (arith, q, update_lem c n.id (some none) d)

start_round-Inv :
    (s s' : Exec) (ns : List ExecNode)
    → All (IsReady s.log) ns
    → start_round s ns ≡ some s'
    → Inv s
    → Inv s'
unfolding start_round
start_round-Inv s s' [] r e v = absurd (ground arith)
start_round-Inv s s' (n ∷ ns) r e v = subst Inv (some-injective _ s' e) (record {
  causal = v.causal;
  outputs = λ d out q. v.outputs d out (mark_in_progress-output s.completed (n ∷ ns) d out q);
  waiting = r;
})

start_node-Inv :
    (s s' : Exec) (r : Option (ExecNode × List ExecNode))
    → ((n : ExecNode) (rest : List ExecNode)
        → r ≡ some (n, rest)
        → IsReady s.log n × All (IsReady s.log) rest)
    → start_node s r ≡ some s'
    → Inv s
    → Inv s'
unfolding start_node
start_node-Inv s s' none m e v = absurd (ground arith)
start_node-Inv s s' (some (n, rest)) m e v =
    let (ready, others) = m n rest refl in
    elim (Bool-cases (ltb (length s.running) tier0_max_concurrency)) [
      | inr w ↦ absurd (none_ne_some (rw w at e))
      | inl u ↦ elim (Bool-cases s.failed) [
        | inl t ↦
            subst Inv (some-injective _ s' (rw (u, t) at e))
              (record { causal = v.causal; outputs = v.outputs; waiting = others })
        | inr f ↦
            subst Inv (some-injective _ s' (rw (u, f) at e))
              (record { causal = (ready, v.causal); outputs = v.outputs; waiting = others })
      ]
    ]

-- The new output is that of the node that returns.
returned_output :
    (n : ExecNode) (out : Output) (c : Completed) (l : List Entry) (d : String) (o : List ℕ)
    → (c d ≡ some (some o) → HasReturned l d)
    → update c n.id (some out) d ≡ some (some o)
    → HasReturned (returned n out ∷ l) d
returned_output n (some b) c l d o h q = elim (Bool-cases (str_eq n.id d)) [
  | inl t ↦ inl ((str_eq_iff n.id d).0 t)
  | inr f ↦ inr (h (ground (arith, q, update_lem c n.id (some (some b)) d)))
]
returned_output n none c l d o h q = h (ground (arith, q, update_lem c n.id (some none) d))

finish_node-Inv :
    (s s' : Exec) (r : Option (ExecNode × List ExecNode)) (o : Outcome)
    → finish_node s r o ≡ some s'
    → Inv s
    → Inv s'
unfolding finish_node
finish_node-Inv s s' none o e v = absurd (ground arith)
finish_node-Inv s s' (some (n, rest)) (success out) e v =
    subst Inv (some-injective _ s' e) (record {
      causal = v.causal;
      outputs = λ d o q. returned_output n out s.completed s.log d o (v.outputs d o) q;
      waiting =
          All-map (IsReady s.log) (IsReady (returned n out ∷ s.log)) s.waiting
            (IsReady-cons (returned n out) s.log) v.waiting;
    })
finish_node-Inv s s' (some (n, rest)) (failure x) e v =
    subst Inv (some-injective _ s' e)
      (record { causal = v.causal; outputs = v.outputs; waiting = v.waiting })

step-Inv : (plan : DagPlan) (s s' : Exec) (e : Event) → step plan s e ≡ some s' → Inv s → Inv s'
unfolding step
step-Inv plan s s' schedule e v =
    start_round-Inv s s' (find_ready_nodes plan s.completed)
      (find_ready_nodes-All plan s.completed s.log v.outputs) (ground arith) v
step-Inv plan s s' (start i) e v =
    start_node-Inv s s' (take_at i s.waiting)
      (λ n rest q. All-take_at (IsReady s.log) i s.waiting n rest q v.waiting) e v
step-Inv plan s s' (finish i o) e v = finish_node-Inv s s' (take_at i s.running) o e v

initial-Inv : Inv initial
unfolding initial
initial-Inv = record { causal = tt; outputs = λ d out e. absurd (none_ne_some e); waiting = tt }

-- Under every schedule, when a node is begun each of its dependencies has already returned an
-- output that is not nil.
pub begun_after_dependencies :
    (plan : DagPlan) (es : List Event) (s : Exec)
    → run_events plan initial es ≡ some s
    → IsCausal s.log
begun_after_dependencies plan es s e =
    (run_events_inv plan Inv (step-Inv plan) es initial s e initial-Inv).causal
