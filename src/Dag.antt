-- ===== src/Dag.antt =====
-- pkg/cognition/kernel/dag_executor.go: the plan and its L0 check, validateDAGTopology. Ids and
-- tool names are texts, arguments and outputs lists of bytes. Counts and limits are at least 0.
pub mod Search
pub mod Adjacency
pub mod Acyclic
pub mod Shape
pub mod Tests
use polarisagi_harness.Prelude.{
  ℕ, zero, suc, ◌+◌, Bool, true, false, ◌&&◌, Option, none, some, List, [], ◌∷◌, String, length,
  update, ◌==◌, ltb, if◌then◌else◌,
}

pub record CompensationAction : Type 0 where
  pub tool_name : String
  pub args : List ℕ
  pub taint_level : ℕ

pub data EdgePolarity : Type 0 where
  edge_data edge_sequence : EdgePolarity

pub record ExecNode : Type 0 where
  pub id : String
  pub tool_name : String
  pub args : List ℕ
  pub taint_level : ℕ
  pub depends_on : List String
  pub compensation : Option CompensationAction
  pub max_retry : ℕ
  pub timeout : ℕ

pub record ExecEdge : Type 0 where
  pub «from» : String
  pub to : String
  pub polarity : EdgePolarity

pub record DagPlan : Type 0 where
  pub nodes : List ExecNode
  pub edges : List ExecEdge

pub data TopologyError : Type 0 where
  too_many_nodes : ℕ → TopologyError
  isolated_node : String → TopologyError
  depth_exceeded : String → TopologyError
  cycle_detected : String → TopologyError

pub data Result {ℓ} (X : Type ℓ) : Type ℓ where
  err : TopologyError → Result X
  ok : X → Result X

infixl 5 ◌>>=◌
abbrev pub ◌>>=◌ {ℓ μ} : {X : Type ℓ} {Y : Type μ} → Result X → (X → Result Y) → Result Y
err failed >>= next = err failed
ok x >>= next = next x

-- `adj[n.ID] = n.DependsOn`: a later node with the same id overwrites an earlier one.
pub build_adj : List ExecNode → (String → List String) → String → List String
build_adj [] adj = adj
build_adj (n ∷ ns) adj = build_adj ns (update adj n.id n.depends_on)

pub adjacency : DagPlan → String → List String
adjacency plan = build_adj plan.nodes (λ _. [])

pub record Degrees : Type 0 where
  pub in_deg : String → ℕ
  pub out_deg : String → ℕ

pub count_dep : Degrees → String → String → Degrees
unfolding update
count_dep d n dep = record {
  in_deg = update d.in_deg n (suc (d.in_deg n));
  out_deg = update d.out_deg dep (suc (d.out_deg dep));
}

pub count_deps : Degrees → String → List String → Degrees
unfolding count_dep
count_deps d n [] = d
count_deps d n (dep ∷ deps) = count_deps (count_dep d n dep) n deps

pub count_nodes : Degrees → List ExecNode → Degrees
unfolding count_deps
count_nodes d [] = d
count_nodes d (n ∷ ns) = count_nodes (count_deps d n.id n.depends_on) ns

pub degrees : DagPlan → Degrees
unfolding count_nodes
degrees plan = count_nodes (record { in_deg = λ _. 0; out_deg = λ _. 0 }) plan.nodes

pub is_nil : List String → Bool
is_nil [] = true
is_nil (x ∷ xs) = false

pub find_isolated : Degrees → List ExecNode → Option String
unfolding is_nil
find_isolated d [] = none
find_isolated d (n ∷ ns) =
    if d.in_deg n.id == 0 && (d.out_deg n.id == 0 && is_nil n.depends_on)
    then some n.id
    else find_isolated d ns

-- Colours of the depth-first search: white 0, gray 1, black 2.
abbrev pub Colors : Type 0
Colors = String → ℕ

abbrev pub white : ℕ
white = 0

abbrev pub gray : ℕ
gray = 1

abbrev pub black : ℕ
black = 2

-- The loop over `adj[id]`, with the recursive call as an argument.
pub visit_deps : (String → Colors → Result Colors) → List String → Colors → Result Colors
visit_deps visit [] c = ok c
visit_deps visit (dep ∷ deps) c =
    let next = visit dep c >>= visit_deps visit deps in
    let rest = visit_deps visit deps c in
    if c dep == gray then err (cycle_detected dep) else if c dep == white then next else rest

-- `dfs(id, depth)` at `left = maxDepth + 1 - depth`: the depth limit is what bounds the recursion.
pub dfs : ℕ → (String → List String) → String → Colors → Result Colors
unfolding visit_deps update
dfs zero adj id c = err (depth_exceeded id)
dfs (suc left) adj id c = do
  c' ← visit_deps (dfs left adj) (adj id) (update c id gray)
  ok (update c' id black)

abbrev pub max_depth : ℕ
max_depth = 10

pub visit_nodes : (String → List String) → List ExecNode → Colors → Result Colors
unfolding dfs
visit_nodes adj [] c = ok c
visit_nodes adj (n ∷ ns) c =
    let next = dfs (suc max_depth) adj n.id c >>= visit_nodes adj ns in
    let rest = visit_nodes adj ns c in if c n.id == white then next else rest

-- The final colours; the Go function returns only whether there is an error.
unfoldable pub validate_dag_topology : DagPlan → Result Colors
unfolding degrees find_isolated visit_nodes adjacency build_adj
validate_dag_topology plan =
    if ltb 50 (length plan.nodes)
    then err (too_many_nodes (length plan.nodes))
    else elim (if ltb 1 (length plan.nodes)
        then find_isolated (degrees plan) plan.nodes
        else none) [
          | some id ↦ err (isolated_node id)
          | none ↦ visit_nodes (adjacency plan) plan.nodes (λ _. white)
        ]
