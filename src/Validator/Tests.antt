-- ===== src/Validator/Tests.antt =====
-- A plan of two readers, and the theorems on validation there.
use polarisagi_harness.Prelude.{◌≡◌, refl, true, false, none, some}
use polarisagi_harness.Dag.{DagPlan, validate_dag_topology}
use polarisagi_harness.Dag.Tests.{two_nodes}
use polarisagi_harness.Taint.{taint_user_reviewed, sanitize_to_safe}
use polarisagi_harness.Validator.{
  reviewed, DagValidationContext, taint_passed_unsanitized, taint_gate_nodes, validate_taint_gate,
  policy_nodes, policy_gate_nodes, validate_policy_gate, is_prefix, contains, mentions,
  touches_files, heuristic_nodes, validate_heuristic, flagged, validate_l3_watchdog, watch,
  topology_layer, first_layers, layers, validate_plan, validate_dag,
}
use polarisagi_harness.Validator.Layers.{IsChecked, validate_dag_sound}

abbrev context : DagValidationContext
context = record {
  plan = some two_nodes;
  active_taint_level = 0;
  policy_gate = some (λ n agent session level. reviewed true);
  tool_registry = none;
  agent_id = "agent";
  session_id = "session";
  system_tier = 1;
  provider = some (λ plan. some false);
  l3_call_count = 9;
}

passes : (validate_dag context).1 ≡ none
unfolding validate_dag validate_plan layers first_layers topology_layer validate_taint_gate
    validate_policy_gate policy_gate_nodes policy_nodes validate_heuristic heuristic_nodes
    touches_files mentions contains is_prefix watch validate_l3_watchdog flagged
    validate_dag_topology
passes = refl

-- Reviewed data, whose level is above High, blocks the plan even where every tool only reads.
reviewed_blocked :
    (validate_dag (record context { active_taint_level = taint_user_reviewed })).1
    ≡ some (taint_passed_unsanitized "a")
unfolding validate_dag validate_plan layers first_layers topology_layer validate_taint_gate
    taint_gate_nodes validate_dag_topology sanitize_to_safe
reviewed_blocked = refl

validate_dag_sound_example :
    (plan : DagPlan) × (some two_nodes ≡ some plan) × IsChecked context plan
validate_dag_sound_example = validate_dag_sound context passes
