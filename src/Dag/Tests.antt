-- ===== src/Dag/Tests.antt =====
-- Plans, what the topology check says of them, and its theorems there.
use polarisagi_harness.Prelude.{◌≡◌, refl, none, List, [], ◌∷◌, String, All}
use polarisagi_harness.Dag.{
  ExecNode, DagPlan, Colors, Result, ok, err, isolated_node, depth_exceeded, cycle_detected,
  validate_dag_topology, adjacency, visit_deps, dfs, visit_nodes, degrees, count_nodes, count_deps,
  count_dep, find_isolated, is_nil, build_adj, white,
}
use polarisagi_harness.Dag.Acyclic.{Reaches, validate-acyclic}

abbrev pub node : String → List String → ExecNode
node name deps = record {
  id = name;
  tool_name = "echo";
  args = [];
  taint_level = 0;
  depends_on = deps;
  compensation = none;
  max_retry = 1;
  timeout = 0;
}

abbrev pub two_nodes : DagPlan
two_nodes = record { nodes = node "a" [] ∷ node "b" ("a" ∷ []) ∷ []; edges = [] }

abbrev pub colors_of : Result Colors → Colors
colors_of (ok c) = c
colors_of (err e) = λ _. white

abbrev pub two_colors : Colors
two_colors = colors_of (validate_dag_topology two_nodes)

pub two_accepted : validate_dag_topology two_nodes ≡ ok two_colors
unfolding validate_dag_topology adjacency visit_deps dfs visit_nodes degrees count_nodes count_deps
    count_dep find_isolated is_nil build_adj
two_accepted = refl

-- A loop of two nodes is a cycle.
loop_rejected :
    validate_dag_topology
      (record { nodes = node "a" ("b" ∷ []) ∷ node "b" ("a" ∷ []) ∷ []; edges = [] })
    ≡ err (cycle_detected "a")
unfolding validate_dag_topology adjacency visit_deps dfs visit_nodes degrees count_nodes count_deps
    count_dep find_isolated is_nil build_adj
loop_rejected = refl

lonely_rejected :
    validate_dag_topology (record { nodes = node "a" [] ∷ node "b" [] ∷ []; edges = [] })
    ≡ err (isolated_node "a")
unfolding validate_dag_topology adjacency visit_deps dfs visit_nodes degrees count_nodes count_deps
    count_dep find_isolated is_nil build_adj
lonely_rejected = refl

abbrev link : String → String → ExecNode
link x y = node x (y ∷ [])

abbrev chain : List ExecNode
chain =
    link "b" "a"
    ∷ link "c" "b"
    ∷ link "d" "c"
    ∷ link "e" "d"
    ∷ link "f" "e"
    ∷ link "g" "f"
    ∷ link "h" "g"
    ∷ link "i" "h"
    ∷ link "j" "i"
    ∷ link "k" "j"
    ∷ link "l" "k"
    ∷ []

abbrev deep_plan : DagPlan
deep_plan = record { nodes = node "a" [] ∷ chain; edges = [] }

-- A chain of twelve nodes whose end is listed first passes the depth limit of ten; with its start
-- first it does not.
deep_accepted : validate_dag_topology deep_plan ≡ ok (colors_of (validate_dag_topology deep_plan))
unfolding validate_dag_topology adjacency visit_deps dfs visit_nodes degrees count_nodes count_deps
    count_dep find_isolated is_nil build_adj
deep_accepted = refl

deep_rejected :
    validate_dag_topology (record { nodes = link "l" "k" ∷ node "a" [] ∷ chain; edges = [] })
    ≡ err (depth_exceeded "a")
unfolding validate_dag_topology adjacency visit_deps dfs visit_nodes degrees count_nodes count_deps
    count_dep find_isolated is_nil build_adj
deep_rejected = refl

validate-acyclic_example : All (λ n. ¬ Reaches (adjacency two_nodes) n.id n.id) two_nodes.nodes
validate-acyclic_example = validate-acyclic two_nodes two_colors two_accepted
