-- ===== src/Validator/Layers.antt =====
-- What a plan that ValidateDAG passes is known to satisfy, layer by layer.
use polarisagi_harness.Prelude.{
  ℕ, ◌≤◌, ◌<◌, ◌≡◌, refl, ap, ◌⊎◌, inl, inr, true, false, Option, none, some, List, [], ◌∷◌, ◌++◌,
  ltb, arith, All, Bool-cases,
}
use polarisagi_harness.Dag.{ExecNode, DagPlan, Colors, ok, err, Result, validate_dag_topology}
use polarisagi_harness.Taint.{TaintLevel, taint_high}
use polarisagi_harness.Validator.{
  reviewed, PolicyGate, ToolRegistry, Provider, DagValidationContext, DagValidationError,
  is_read_only_tool, taint_gate_nodes, validate_taint_gate, policy_nodes, policy_gate_nodes,
  or_next, topology_layer, validate_plan, validate_policy_gate, is_prefix, contains,
  forbidden_paths, mentions, touches_files, heuristic_nodes, validate_heuristic, max_l3_calls,
  validate_l3_watchdog, watch, first_layers, layers, validate_dag,
}

taint_gate_nodes-none :
    (level : TaintLevel) (registry : Option ToolRegistry) (ns : List ExecNode)
    → taint_high ≤ level
    → taint_gate_nodes level registry ns ≡ none
    → All (λ n. is_read_only_tool n.tool_name registry ≡ true) ns
unfolding taint_gate_nodes
taint_gate_nodes-none level registry [] h e = tt
taint_gate_nodes-none level registry (n ∷ ns) h e =
    (ground arith, taint_gate_nodes-none level registry ns h (ground arith))

policy_nodes-none :
    (v : DagValidationContext) (gate : PolicyGate) (ns : List ExecNode)
    → policy_nodes v gate ns ≡ none
    → All (λ n. gate n v.agent_id v.session_id v.active_taint_level ≡ reviewed true) ns
unfolding policy_nodes
policy_nodes-none v gate [] e = tt
policy_nodes-none v gate (n ∷ ns) e = (ground arith, policy_nodes-none v gate ns (ground arith))

is_prefix-append : (p ys : List ℕ) → is_prefix p (p ++ ys) ≡ true
unfolding is_prefix
is_prefix-append [] ys = refl
is_prefix-append (x ∷ p) ys = ground (arith, is_prefix-append p ys)

contains-prefix : (xs p : List ℕ) → is_prefix p xs ≡ true → contains xs p ≡ true
unfolding contains
contains-prefix [] p h = h
contains-prefix (x ∷ xs) p h = ground (arith, h)

-- The search finds a path wherever it stands.
contains-append : (pre p post : List ℕ) → contains (pre ++ (p ++ post)) p ≡ true
unfolding contains
contains-append [] p post = contains-prefix (p ++ post) p (is_prefix-append p post)
contains-append (x ∷ pre) p post = ground (arith, contains-append pre p post)

-- The text has the path somewhere in it.
abbrev pub Mentions : List ℕ → List ℕ → Type 0
Mentions args path = (pre : List ℕ) × (post : List ℕ) × (args ≡ pre ++ (path ++ post))

mentions-none :
    (args : List ℕ) (ps : List (List ℕ))
    → mentions args ps ≡ false
    → All (λ p. ¬ Mentions args p) ps
unfolding mentions
mentions-none args [] e = tt
mentions-none args (p ∷ ps) e = (
  λ (pre, post, q).
      ground (arith, e, contains-append pre p post, ap (λ (x : List ℕ). contains x p) q),
  mentions-none args ps (ground (arith, e)),
)

heuristic_nodes-none :
    (ns : List ExecNode)
    → heuristic_nodes ns ≡ none
    → All
        (λ n. (touches_files n.tool_name ≡ false) ⊎ All (λ p. ¬ Mentions n.args p) forbidden_paths)
        ns
unfolding heuristic_nodes
heuristic_nodes-none [] e = tt
heuristic_nodes-none (n ∷ ns) e = (
  elim (Bool-cases (touches_files n.tool_name)) [
    | inr f ↦ inl f
    | inl t ↦ inr (mentions-none n.args forbidden_paths (ground (arith, t)))
  ],
  heuristic_nodes-none ns (ground arith),
)

-- What the first layers have established of a plan.
pub record IsChecked (v : DagValidationContext) (plan : DagPlan) : Type 0 where
  pub sound : (colors : Colors) × (validate_dag_topology plan ≡ ok colors)
  pub untainted :
      (v.active_taint_level < taint_high)
      ⊎ All (λ n. is_read_only_tool n.tool_name v.tool_registry ≡ true) plan.nodes
  pub allowed :
      (gate : PolicyGate) × (v.policy_gate ≡ some gate)
      × All (λ n. gate n v.agent_id v.session_id v.active_taint_level ≡ reviewed true) plan.nodes
  pub unprotected :
      All
        (λ n. (touches_files n.tool_name ≡ false) ⊎ All (λ p. ¬ Mentions n.args p) forbidden_paths)
        plan.nodes

taint_gate-none :
    (v : DagValidationContext) (plan : DagPlan)
    → validate_taint_gate v plan ≡ none
    → (v.active_taint_level < taint_high)
      ⊎ All (λ n. is_read_only_tool n.tool_name v.tool_registry ≡ true) plan.nodes
unfolding validate_taint_gate
taint_gate-none v plan e = elim (Bool-cases (ltb v.active_taint_level taint_high)) [
  | inl t ↦ inl (ground (arith, t))
  | inr f ↦ inr (
      taint_gate_nodes-none v.active_taint_level v.tool_registry plan.nodes (ground (arith, f))
        (ground (arith, f, e)))
]

policy_gate-none :
    (v : DagValidationContext) (plan : DagPlan) (o : Option PolicyGate)
    → policy_gate_nodes v plan o ≡ none
    → (gate : PolicyGate) × (o ≡ some gate)
      × All (λ n. gate n v.agent_id v.session_id v.active_taint_level ≡ reviewed true) plan.nodes
unfolding policy_gate_nodes
policy_gate-none v plan none e = absurd (cc)
policy_gate-none v plan (some gate) e = (gate, refl, policy_nodes-none v gate plan.nodes e)

or_next-none : (a b : Option DagValidationError) → or_next a b ≡ none → (a ≡ none) × (b ≡ none)
or_next-none none b e = (refl, e)
or_next-none (some x) b e = absurd (cc)

topology_layer-none :
    (r : Result Colors) → topology_layer r ≡ none → (colors : Colors) × (r ≡ ok colors)
unfolding topology_layer
topology_layer-none (ok colors) e = (colors, refl)
topology_layer-none (err x) e = absurd (cc)

first_layers-none :
    (v : DagValidationContext) (plan : DagPlan)
    → first_layers v plan ≡ none
    → ((colors : Colors) × (validate_dag_topology plan ≡ ok colors))
      × (validate_taint_gate v plan ≡ none)
      × (validate_policy_gate v plan ≡ none)
      × (validate_heuristic plan ≡ none)
unfolding first_layers
first_layers-none v plan e =
    let (a, rest) = or_next-none (topology_layer (validate_dag_topology plan)) _ e in
    let (b, last) = or_next-none (validate_taint_gate v plan) _ rest in
    let (c, d) = or_next-none (validate_policy_gate v plan) _ last in
    (topology_layer-none (validate_dag_topology plan) a, b, c, d)

first_layers-IsChecked :
    (v : DagValidationContext) (plan : DagPlan) → first_layers v plan ≡ none → IsChecked v plan
unfolding validate_policy_gate validate_heuristic
first_layers-IsChecked v plan e =
    let (t, g, p, h) = first_layers-none v plan e in
    record {
      sound = t;
      untainted = taint_gate-none v plan g;
      allowed = policy_gate-none v plan v.policy_gate p;
      unprotected = heuristic_nodes-none plan.nodes (ground (arith, h));
    }

layers-none :
    (v : DagValidationContext) (plan : DagPlan) (o : Option DagValidationError)
    → (layers v plan o).1 ≡ none
    → o ≡ none
unfolding layers
layers-none v plan none e = refl
layers-none v plan (some x) e = e

-- A plan that ValidateDAG passes is there, and: it passes the topology check; if the taint of the
-- context is High or above every tool only reads; a policy engine is there and allows every node; and
-- none of the tools read_file, write_file and bash has a protected path in its arguments.
pub validate_dag_sound :
    (v : DagValidationContext)
    → (validate_dag v).1 ≡ none
    → (plan : DagPlan) × (v.plan ≡ some plan) × IsChecked v plan
unfolding validate_dag
validate_dag_sound v e = passes v.plan e
  where
    passes :
        (o : Option DagPlan)
        → (validate_plan v o).1 ≡ none
        → (plan : DagPlan) × (o ≡ some plan) × IsChecked v plan
    passes none h = unfold validate_plan in absurd (cc)
    passes (some plan) h =
        unfold validate_plan in
        (plan, refl, first_layers-IsChecked v plan (layers-none v plan (first_layers v plan) h))

watch-count :
    (calls tier : ℕ) (o : Option Provider) (plan : DagPlan)
    → calls ≤ max_l3_calls
    → ((watch calls tier o plan).0 ≤ max_l3_calls) × (calls ≤ (watch calls tier o plan).0)
unfolding watch validate_l3_watchdog
watch-count calls tier none plan h = (omega arith, omega arith)
watch-count calls tier (some p) plan h = (ground arith, ground arith)

-- The model is called at most ten times for one context, however often it is validated: a validation
-- keeps the count within the limit and never lowers it.
pub validate_dag-budget :
    (v : DagValidationContext)
    → v.l3_call_count ≤ max_l3_calls
    → ((validate_dag v).0 ≤ max_l3_calls) × (v.l3_call_count ≤ (validate_dag v).0)
unfolding validate_dag
validate_dag-budget v h = counted v.plan
  where
    kept :
        (plan : DagPlan) (o : Option DagValidationError)
        → ((layers v plan o).0 ≤ max_l3_calls) × (v.l3_call_count ≤ (layers v plan o).0)
    kept plan none = unfold layers in watch-count v.l3_call_count v.system_tier v.provider plan h
    kept plan (some e) = unfold layers in (h, omega arith)

    counted :
        (o : Option DagPlan)
        → ((validate_plan v o).0 ≤ max_l3_calls) × (v.l3_call_count ≤ (validate_plan v o).0)
    counted none = unfold validate_plan in (h, omega arith)
    counted (some plan) = unfold validate_plan in kept plan (first_layers v plan)
