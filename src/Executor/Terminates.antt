-- ===== src/Executor/Terminates.antt =====
-- Every execution ends: how many events there can be, and that none gets stuck.
use polarisagi_harness.Prelude.{
  ℕ, suc, ◌+◌, ◌*◌, ◌≤◌, ◌≡◌, ◌≢◌, refl, ap, ◌∙◌, ◌⊎◌, inl, inr, true, false, not, ◌&&◌, Option,
  none, some, List, [], ◌∷◌, arith, length, Option-cases, List-cases, Bool-cases, String, All,
  str_eq_iff, update, update_lem, if◌then◌else◌,
}
use polarisagi_harness.Dag.{DagPlan, ExecNode}
use polarisagi_harness.Executor.{
  Output, Completed, context_done, Exec, Event, schedule, start, finish, Outcome, success, failure,
  initial, take_at, start_round, start_node, finish_node, step, run_events, find_ready_nodes,
  collect_ready, sort_by_id, insert_by_id, all_ready, mark_in_progress, is_scheduled, conclude,
  Verdict, finished, compensated, id_less,
}
use polarisagi_harness.Executor.Schedule.{none_ne_some, length-take_at}

-- How many nodes of a list have no entry in the map.
abbrev unscheduled : Completed → List ExecNode → ℕ
unscheduled c [] = 0
unscheduled c (n ∷ ns) =
    let rest = unscheduled c ns in if is_scheduled (c n.id) then rest else suc rest

unscheduled-le : (c : Completed) (ns : List ExecNode) → unscheduled c ns ≤ length ns
unscheduled-le c [] = omega arith
unscheduled-le c (n ∷ ns) = ground (arith, unscheduled-le c ns)

-- A map that keeps every entry of another has at most its unscheduled nodes.
unscheduled_mono :
    (c c' : Completed) (ns : List ExecNode)
    → ((d : String) → is_scheduled (c' d) ≡ false → is_scheduled (c d) ≡ false)
    → unscheduled c' ns ≤ unscheduled c ns
unscheduled_mono c c' [] h = omega arith
unscheduled_mono c c' (n ∷ ns) h = ground (arith, unscheduled_mono c c' ns h, h n.id)

mark-scheduled :
    (c : Completed) (ms : List ExecNode) (d : String)
    → is_scheduled (mark_in_progress c ms d) ≡ false
    → is_scheduled (c d) ≡ false
unfolding mark_in_progress
mark-scheduled c [] d e = e
mark-scheduled c (m ∷ ms) d e =
    ground
      (arith, mark-scheduled (update c m.id (some none)) ms d e, update_lem c m.id (some none) d)

marked :
    (c : Completed) (ms : List ExecNode)
    → All (λ m. is_scheduled (mark_in_progress c ms m.id) ≡ true) ms
unfolding mark_in_progress
marked c [] = tt
marked c (m ∷ ms) = (
  elim (Bool-cases (is_scheduled (mark_in_progress (update c m.id (some none)) ms m.id))) [
    | inl t ↦ t
    | inr f ↦ absurd (
        ground (
          arith,
          mark-scheduled (update c m.id (some none)) ms m.id f,
          update_lem c m.id (some none) m.id,
          str_eq_iff m.id m.id,
        ))
  ],
  marked (update c m.id (some none)) ms,
)

length-insert_by_id :
    (n : ExecNode) (ms : List ExecNode) → length (insert_by_id n ms) ≡ suc (length ms)
unfolding insert_by_id
length-insert_by_id n [] = refl
length-insert_by_id n (m ∷ ms) = ground (arith, length-insert_by_id n ms)

length-sort_by_id : (ns : List ExecNode) → length (sort_by_id ns) ≡ length ns
unfolding sort_by_id
length-sort_by_id [] = refl
length-sort_by_id (n ∷ ns) = length-insert_by_id n (sort_by_id ns) ∙ ap suc (length-sort_by_id ns)

-- What holds of a sorted list's members holds of the list's.
All-insert_by_id {κ} :
    (P : ExecNode → Type κ) (n : ExecNode) (ms : List ExecNode)
    → All P (insert_by_id n ms)
    → P n × All P ms
unfolding insert_by_id
All-insert_by_id P n [] a = (a.0, tt)
All-insert_by_id P n (m ∷ ms) a = elim (Bool-cases (id_less m n)) [
  | inl t ↦ let b = (rw t at a) in let (p, q) = All-insert_by_id P n ms b.1 in (p, (b.0, q))
  | inr f ↦ rw f at a
]

All-sort_by_id {κ} : (P : ExecNode → Type κ) (ns : List ExecNode) → All P (sort_by_id ns) → All P ns
unfolding sort_by_id
All-sort_by_id P [] a = tt
All-sort_by_id P (n ∷ ns) a =
    let (p, q) = All-insert_by_id P n (sort_by_id ns) a in (p, All-sort_by_id P ns q)

-- Marking what is ready schedules that many nodes more.
unscheduled-ready :
    (c c' : Completed) (ns : List ExecNode)
    → ((d : String) → is_scheduled (c' d) ≡ false → is_scheduled (c d) ≡ false)
    → All (λ m. is_scheduled (c' m.id) ≡ true) (collect_ready c ns)
    → unscheduled c' ns + length (collect_ready c ns) ≤ unscheduled c ns
unfolding collect_ready
unscheduled-ready c c' [] h a = omega arith
unscheduled-ready c c' (n ∷ ns) h a =
    elim (Bool-cases (not (is_scheduled (c n.id)) && all_ready c n.depends_on)) [
      | inl t ↦ let b = (rw t at a) in ground (arith, t, b.0, unscheduled-ready c c' ns h b.1)
      | inr f ↦ ground (arith, f, unscheduled-ready c c' ns h (rw f at a), h n.id)
    ]

unscheduled-round :
    (plan : DagPlan) (c : Completed)
    → unscheduled (mark_in_progress c (find_ready_nodes plan c)) plan.nodes
        + length (find_ready_nodes plan c)
      ≤ unscheduled c plan.nodes
unfolding find_ready_nodes
unscheduled-round plan c =
    let ready = collect_ready c plan.nodes in
    let c' = mark_in_progress c (sort_by_id ready) in
    omega (
      arith,
      length-sort_by_id ready,
      unscheduled-ready c c' plan.nodes (mark-scheduled c (sort_by_id ready))
          (All-sort_by_id (λ m. is_scheduled (c' m.id) ≡ true) ready (marked c (sort_by_id ready))),
    )

-- The events that are left: three for a node that is not scheduled, two for one that waits, one for
-- one that runs.
abbrev measure : DagPlan → Exec → ℕ
measure plan s = 3 * unscheduled s.completed plan.nodes + 2 * length s.waiting + length s.running

start_round-measure :
    (plan : DagPlan) (s s' : Exec) (ns : List ExecNode)
    → length s.waiting ≡ 0
    → unscheduled (mark_in_progress s.completed ns) plan.nodes + length ns
      ≤ unscheduled s.completed plan.nodes
    → start_round s ns ≡ some s'
    → suc (measure plan s') ≤ measure plan s
unfolding start_round
start_round-measure plan s s' [] w h e = absurd (none_ne_some e)
start_round-measure plan s s' (n ∷ ns) w h e = ground (arith, h, w)

start_node-measure :
    (plan : DagPlan) (s s' : Exec) (r : Option (ExecNode × List ExecNode))
    → ((n : ExecNode) (rest : List ExecNode)
        → r ≡ some (n, rest)
        → length s.waiting ≡ suc (length rest))
    → start_node s r ≡ some s'
    → suc (measure plan s') ≤ measure plan s
unfolding start_node
start_node-measure plan s s' none m e = absurd (none_ne_some e)
start_node-measure plan s s' (some (n, rest)) m e = ground (arith, m n rest refl)

update-scheduled :
    (c : Completed) (n : String) (o : Output) (d : String)
    → is_scheduled (update c n (some o) d) ≡ false
    → is_scheduled (c d) ≡ false
update-scheduled c n o d e = ground (arith, update_lem c n (some o) d)

finish_node-measure :
    (plan : DagPlan) (s s' : Exec) (r : Option (ExecNode × List ExecNode)) (o : Outcome)
    → ((n : ExecNode) (rest : List ExecNode)
        → r ≡ some (n, rest)
        → length s.running ≡ suc (length rest))
    → finish_node s r o ≡ some s'
    → suc (measure plan s') ≤ measure plan s
unfolding finish_node
finish_node-measure plan s s' none o m e = absurd (none_ne_some e)
finish_node-measure plan s s' (some (n, rest)) (success out) m e = ground (
  arith,
  m n rest refl,
  unscheduled_mono s.completed (update s.completed n.id (some out)) plan.nodes
      (update-scheduled s.completed n.id out),
)
finish_node-measure plan s s' (some (n, rest)) (failure x) m e = ground (arith, m n rest refl)

step-measure :
    (plan : DagPlan) (s s' : Exec) (e : Event)
    → step plan s e ≡ some s'
    → suc (measure plan s') ≤ measure plan s
unfolding step
step-measure plan s s' schedule e =
    start_round-measure plan s s' (find_ready_nodes plan s.completed) (ground arith)
      (unscheduled-round plan s.completed) (ground arith)
step-measure plan s s' (start i) e =
    start_node-measure plan s s' (take_at i s.waiting) (length-take_at i s.waiting) e
step-measure plan s s' (finish i o) e =
    finish_node-measure plan s s' (take_at i s.running) o (length-take_at i s.running) e

run_events-measure :
    (plan : DagPlan) (es : List Event) (s s' : Exec)
    → run_events plan s es ≡ some s'
    → length es + measure plan s' ≤ measure plan s
unfolding run_events
run_events-measure plan [] s s' e = ground arith
run_events-measure plan (x ∷ es) s s' e = elim (Option-cases (step plan s x)) [
  | inl n ↦ absurd (none_ne_some (rw (n, run_events) at e))
  | inr (t, q) ↦
      omega (
        arith,
        step-measure plan s t x q,
        run_events-measure plan es t s' (rw (q, run_events) at e),
      )
]

-- No execution goes on for ever: there are at most three events for each node of the plan.
pub run_events-bounded :
    (plan : DagPlan) (es : List Event) (s : Exec)
    → run_events plan initial es ≡ some s
    → length es ≤ 3 * length plan.nodes
unfolding initial
run_events-bounded plan es s e =
    omega (arith, run_events-measure plan es initial s e, unscheduled-le (λ _. none) plan.nodes)

happens :
    (plan : DagPlan) (s : Exec) (e : Event)
    → step plan s e ≢ none
    → (e : Event) × (s' : Exec) × (step plan s e ≡ some s')
happens plan s e h = elim (Option-cases (step plan s e)) [
  | inl n ↦ absurd (h n)
  | inr (s', q) ↦ (e, s', q)
]

-- Between rounds Execute goes on or returns.
idle-progress :
    (plan : DagPlan) (s : Exec)
    → s.waiting ≡ []
    → s.running ≡ []
    → ((e : Event) × (s' : Exec) × (step plan s e ≡ some s'))
      ⊎ ((v : Verdict) × (conclude plan s ≡ some v))
unfolding step conclude start_round
idle-progress plan s w r = elim (Bool-cases s.failed) [
  | inl t ↦ inr (compensated s.all_results s.first_err s.executed_undo, ground arith)
  | inr f ↦ elim (List-cases (find_ready_nodes plan s.completed)) [
    | inl z ↦ inr (finished s.all_results, ground arith)
    | inr (n, ns, q) ↦ inl (happens plan s schedule (λ x. ground arith))
  ]
]

-- No execution gets stuck: at every moment either another event can happen, or Execute returns.
pub run_events-progress :
    (plan : DagPlan) (s : Exec)
    → ((e : Event) × (s' : Exec) × (step plan s e ≡ some s'))
      ⊎ ((v : Verdict) × (conclude plan s ≡ some v))
unfolding step take_at start_node finish_node
run_events-progress plan s = elim (List-cases s.running) [
  | inr (n, ns, q) ↦ inl (happens plan s (finish 0 (failure context_done)) (λ x. ground arith))
  | inl r ↦ elim (List-cases s.waiting) [
    | inl w ↦ idle-progress plan s w r
    | inr (n, ns, q) ↦ elim (Bool-cases s.failed) [
      | inl t ↦ inl (happens plan s (start 0) (λ x. ground arith))
      | inr f ↦ inl (happens plan s (start 0) (λ x. ground arith))
    ]
  ]
]
