-- ===== src/Dag/Adjacency.antt =====
-- The adjacency map of a plan whose ids are distinct.
use polarisagi_harness.Prelude.{
  ◌≡◌, ◌≢◌, ◌∙◌, refl, List, [], ◌∷◌, arith, String, All, str_eq_iff, update, update_lem,
}
use polarisagi_harness.Dag.{DagPlan, ExecNode, build_adj, adjacency}

-- No two nodes share an id.
abbrev pub HasDistinctIds : List ExecNode → Type 0
HasDistinctIds [] = Unit
HasDistinctIds (n ∷ ns) = All (λ m. m.id ≢ n.id) ns × HasDistinctIds ns

build_adj-absent :
    (ns : List ExecNode) (adj : String → List String) (x : String)
    → All (λ m. m.id ≢ x) ns
    → build_adj ns adj x ≡ adj x
unfolding build_adj
build_adj-absent [] adj x a = refl
build_adj-absent (n ∷ ns) adj x a =
    build_adj-absent ns (update adj n.id n.depends_on) x a.1
    ∙ ground (arith, update_lem adj n.id n.depends_on x, str_eq_iff n.id x, a.0)

build_adj_lem :
    (ns : List ExecNode) (adj : String → List String)
    → HasDistinctIds ns
    → All (λ n. build_adj ns adj n.id ≡ n.depends_on) ns
unfolding build_adj
build_adj_lem [] adj d = tt
build_adj_lem (n ∷ ns) adj d = (
  build_adj-absent ns (update adj n.id n.depends_on) n.id d.0
      ∙ ground (arith, update_lem adj n.id n.depends_on n.id, str_eq_iff n.id n.id),
  build_adj_lem ns (update adj n.id n.depends_on) d.1,
)

pub adjacency_lem :
    (plan : DagPlan)
    → HasDistinctIds plan.nodes
    → All (λ n. adjacency plan n.id ≡ n.depends_on) plan.nodes
unfolding adjacency
adjacency_lem plan d = build_adj_lem plan.nodes (λ _. []) d
