-- ===== src/Executor/Tests.antt =====
-- Executions of a plan of two nodes, and the theorems on executions there.
use polarisagi_harness.Prelude.{
  ◌*◌, ◌≤◌, ◌≡◌, ◌≢◌, refl, ◌⊎◌, inl, true, none, some, List, [], ◌∷◌, String, str_eq_iff, length,
  All, arith, Option,
}
use polarisagi_harness.Dag.{DagPlan, CompensationAction}
use polarisagi_harness.Dag.Tests.{node, two_nodes, two_colors, two_accepted}
use polarisagi_harness.Executor.{
  Exec, Event, schedule, start, finish, success, failure, tool_failed, initial, run_events, step,
  take_at, start_node, start_round, finish_node, find_ready_nodes, collect_ready, sort_by_id,
  insert_by_id, id_less, all_ready, has_output, mark_in_progress, conclude, Verdict, finished,
  NodeResult, tier0_max_concurrency,
}
use polarisagi_harness.Executor.Saga.{IsQuiet, concurrency_bounded}
use polarisagi_harness.Executor.Causality.{IsCausal, begun_after_dependencies}
use polarisagi_harness.Executor.Liveness.{success_is_complete}
use polarisagi_harness.Executor.Terminates.{run_events-bounded, run_events-progress}

abbrev state_of : Option Exec → Exec
state_of none = initial
state_of (some s) = s

abbrev all_run : List Event
all_run =
    schedule
    ∷ start 0
    ∷ finish 0 (success (some (b'1' ∷ [])))
    ∷ schedule
    ∷ start 0
    ∷ finish 0 (success (some []))
    ∷ []

abbrev end_of : DagPlan → List Event → Exec
end_of plan es = state_of (run_events plan initial es)

two_run : run_events two_nodes initial all_run ≡ some (end_of two_nodes all_run)
unfolding run_events step take_at start_node start_round finish_node find_ready_nodes collect_ready
    sort_by_id insert_by_id id_less all_ready has_output mark_in_progress initial
two_run = refl

abbrev undo_a : CompensationAction
undo_a = record { tool_name = "undo"; args = []; taint_level = 2 }

-- The first node declares a compensation, which takes its taint.
abbrev undoable : DagPlan
undoable = record {
  nodes =
      record (node "a" []) {
        taint_level = 2;
        compensation = some (record undo_a { taint_level = 0 });
      }
      ∷ node "b" ("a" ∷ [])
      ∷ [];
  edges = [];
}

abbrev second_fails : List Event
second_fails =
    schedule
    ∷ start 0
    ∷ finish 0 (success (some []))
    ∷ schedule
    ∷ start 0
    ∷ finish 0 (failure (tool_failed "no"))
    ∷ []

abbrev undo_results : List NodeResult
undo_results =
    record { node_id = "a"; output = some []; failure = none }
    ∷ record { node_id = "b"; output = none; failure = some (tool_failed "no") }
    ∷ []

concurrency_bounded_example :
    (length (end_of two_nodes all_run).running ≤ tier0_max_concurrency)
    × IsQuiet (end_of two_nodes all_run).log
concurrency_bounded_example =
    concurrency_bounded two_nodes all_run (end_of two_nodes all_run) two_run

begun_after_dependencies_example : IsCausal (end_of two_nodes all_run).log
begun_after_dependencies_example =
    begun_after_dependencies two_nodes all_run (end_of two_nodes all_run) two_run

two_concludes :
    conclude two_nodes (end_of two_nodes all_run)
    ≡ some (finished (end_of two_nodes all_run).all_results)
unfolding run_events step take_at start_node start_round finish_node find_ready_nodes collect_ready
    sort_by_id insert_by_id id_less all_ready has_output mark_in_progress conclude initial
two_concludes = refl

b_ne_a : ◌≢◌ {A = String} "b" "a"
b_ne_a e = absurd (ground (arith, (str_eq_iff "b" "a").1 e))

success_is_complete_example :
    All (λ n. has_output ((end_of two_nodes all_run).completed n.id) ≡ true) two_nodes.nodes
unfolding run_events step take_at start_node start_round finish_node find_ready_nodes collect_ready
    sort_by_id insert_by_id id_less all_ready has_output mark_in_progress initial
success_is_complete_example =
    success_is_complete two_nodes two_colors all_run (end_of two_nodes all_run)
      (end_of two_nodes all_run).all_results two_accepted ((b_ne_a, tt), (tt, tt))
      (tt, ((inl refl, tt), tt)) two_run (λ d h. h) two_concludes

run_events-bounded_example : length all_run ≤ 3 * length two_nodes.nodes
run_events-bounded_example = run_events-bounded two_nodes all_run (end_of two_nodes all_run) two_run

run_events-progress_example :
    ((e : Event) × (s' : Exec) × (step two_nodes initial e ≡ some s'))
    ⊎ ((v : Verdict) × (conclude two_nodes initial ≡ some v))
run_events-progress_example = run_events-progress two_nodes initial
