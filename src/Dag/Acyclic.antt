-- ===== src/Dag/Acyclic.antt =====
-- A plan that passes L0 has no dependency cycle.
use mathlib.Core.WellFounded.{Acc}
use mathlib.Core.Path.{subst}
use polarisagi_harness.Prelude.{◌⊎◌, ◌≡◌, refl, sym, inl, inr, List, String, arith, All, All-map}
use polarisagi_harness.Dag.{DagPlan, ok, Colors, white, black, adjacency, validate_dag_topology}
use polarisagi_harness.Dag.Search.{Dep, visit_nodes_lem, validate_visits}

-- The dependencies of every node of an accepted plan form a finite tree.
pub validate-Acc :
    (plan : DagPlan) (d : Colors)
    → validate_dag_topology plan ≡ ok d
    → All (λ n. Acc (Dep (adjacency plan)) n.id) plan.nodes
validate-Acc plan d e =
    let (g, x, b) =
      visit_nodes_lem (adjacency plan) plan.nodes (λ _. white) d
        (record { finished = λ x q. absurd (omega arith); bounded = λ x. omega arith })
        (λ x q. omega arith) (validate_visits plan d e) in
    All-map (λ n. d n.id ≡ black) (λ n. Acc (Dep (adjacency plan)) n.id) plan.nodes
      (λ n q. g.finished n.id q) b

-- A dependency path, of one edge or more.
pub data Reaches (adj : String → List String) : String → String → Type 0 where
  direct : {x y : String} → Dep adj y x → Reaches adj x y
  through : {x y z : String} → Dep adj y x → Reaches adj y z → Reaches adj x z

extend :
    (adj : String → List String) {x y z : String} → Reaches adj x y → Dep adj z y → Reaches adj x z
extend adj (direct d) m = through d (direct m)
extend adj (through d r) m = through d (extend adj r m)

first_edge :
    (adj : String → List String) {x y : String}
    → Reaches adj x y
    → (z : String) × Dep adj z x × ((z ≡ y) ⊎ Reaches adj z y)
first_edge adj (direct {y = y} d) = (y, d, inl refl)
first_edge adj (through {y = y} d r) = (y, d, inr r)

-- A cycle at a node is a cycle at the next node on it.
Acc-irreflexive : (adj : String → List String) (x : String) → Acc (Dep adj) x → ¬ Reaches adj x x
Acc-irreflexive adj x (Acc.intro _ smaller) r =
    let (z, d, rest) = first_edge adj r in
    elim rest [
      | inl e ↦ Acc-irreflexive adj z (smaller z d) (subst (λ k. Reaches adj k k) (sym e) r)
      | inr s ↦ Acc-irreflexive adj z (smaller z d) (extend adj s d)
    ]

-- No node of a plan that the topology check accepts lies on a cycle of dependencies.
pub validate-acyclic :
    (plan : DagPlan) (d : Colors)
    → validate_dag_topology plan ≡ ok d
    → All (λ n. ¬ Reaches (adjacency plan) n.id n.id) plan.nodes
validate-acyclic plan d e =
    All-map (λ n. Acc (Dep (adjacency plan)) n.id) (λ n. ¬ Reaches (adjacency plan) n.id n.id)
      plan.nodes (λ n. Acc-irreflexive (adjacency plan) n.id) (validate-Acc plan d e)
