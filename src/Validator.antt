-- ===== src/Validator.antt =====
-- pkg/cognition/kernel/dag_validator.go: ValidateDAG, the layers that a plan passes before it is
-- executed. The policy engine, the tool registry and the model are outside this code and are
-- arguments: what they answer for a node or a plan. Reasons of errors are constructors.
pub mod Layers
mod Tests
use polarisagi_harness.Prelude.{
  ℕ, suc, ◌+◌, Bool, true, false, not, ◌||◌, ◌&&◌, Option, none, some, List, [], ◌∷◌, String,
  length, ltb, leb, ◌==◌, str_eq, if◌then◌else◌,
}
use polarisagi_harness.Dag.{
  ExecNode, DagPlan, Colors, TopologyError, Result, ok, err, validate_dag_topology,
}
use polarisagi_harness.Taint.{TaintLevel, TaintedString, taint_medium, taint_high, sanitize_to_safe}

-- What PolicyGate.Review gives for a node: an error, or a result.
pub data Review : Type 0 where
  review_error : Review
  reviewed : Bool → Review

-- The node, the agent and the session that ask, and the taint of the context.
abbrev pub PolicyGate : Type 0
PolicyGate = ExecNode → String → String → TaintLevel → Review

-- `registry.Lookup`: the capability of a tool, if it is found; `cap_read_only` is the highest one that
-- only reads.
abbrev pub ToolRegistry : Type 0
ToolRegistry = String → Option ℕ

abbrev pub cap_read_only : ℕ
cap_read_only = 0

-- What the model answers about a plan: nothing on an error, else whether the answer, trimmed and in
-- capitals, begins with UNSAFE.
abbrev pub Provider : Type 0
Provider = DagPlan → Option Bool

pub record DagValidationContext : Type 0 where
  pub plan : Option DagPlan
  pub active_taint_level : TaintLevel
  pub policy_gate : Option PolicyGate
  pub tool_registry : Option ToolRegistry
  pub agent_id : String
  pub session_id : String
  pub system_tier : ℕ
  pub provider : Option Provider
  pub l3_call_count : ℕ

pub data DagValidationError : Type 0 where
  plan_is_nil : DagValidationError
  topology : TopologyError → DagValidationError
  taint_passed_unsanitized taint_blocked : String → DagValidationError
  policy_gate_is_nil : DagValidationError
  policy_error policy_denied : String → DagValidationError
  scale_exceeded : ℕ → DagValidationError
  protected_path : String → DagValidationError
  flagged_unsafe : DagValidationError

abbrev built_in_reader : String → Bool
built_in_reader tool =
    str_eq tool "read_file"
    || (str_eq tool "list_dir" || (str_eq tool "search_web" || str_eq tool "fetch_url"))

pub is_read_only_tool : String → Option ToolRegistry → Bool
is_read_only_tool tool none = built_in_reader tool
is_read_only_tool tool (some registry) = elim (registry tool) [
  | some capability ↦ leb capability cap_read_only
  | none ↦ built_in_reader tool
]

abbrev node_args : ExecNode → TaintLevel → TaintedString
node_args n level = record {
  content = n.args;
  source = record {
    module_name = "m4_validate";
    entity_id = n.id;
    event_id = "";
    origin_taint_level = level;
  };
  origin = "dag_node_args";
}

abbrev is_some {ℓ} : {A : Type ℓ} → Option A → Bool
is_some none = false
is_some (some a) = true

pub taint_gate_nodes : TaintLevel → Option ToolRegistry → List ExecNode → Option DagValidationError
taint_gate_nodes level registry [] = none
taint_gate_nodes level registry (n ∷ ns) =
    let rest = taint_gate_nodes level registry ns in
    if leb taint_high level
    then if is_some (sanitize_to_safe (node_args n level))
      then some (taint_passed_unsanitized n.id)
      else if not (is_read_only_tool n.tool_name registry)
      then some (taint_blocked n.id)
      else rest
    else rest

pub validate_taint_gate : DagValidationContext → DagPlan → Option DagValidationError
validate_taint_gate v plan =
    if ltb v.active_taint_level taint_medium
    then none
    else taint_gate_nodes v.active_taint_level v.tool_registry plan.nodes

pub policy_nodes : DagValidationContext → PolicyGate → List ExecNode → Option DagValidationError
policy_nodes v gate [] = none
policy_nodes v gate (n ∷ ns) =
    let rest = policy_nodes v gate ns in
    elim (gate n v.agent_id v.session_id v.active_taint_level) [
      | review_error ↦ some (policy_error n.id)
      | reviewed allowed ↦ if not allowed then some (policy_denied n.id) else rest
    ]

pub policy_gate_nodes :
    DagValidationContext → DagPlan → Option PolicyGate → Option DagValidationError
policy_gate_nodes v plan none = some policy_gate_is_nil
policy_gate_nodes v plan (some gate) = policy_nodes v gate plan.nodes

pub validate_policy_gate : DagValidationContext → DagPlan → Option DagValidationError
validate_policy_gate v plan = policy_gate_nodes v plan v.policy_gate

pub is_prefix : List ℕ → List ℕ → Bool
is_prefix [] ys = true
is_prefix (x ∷ xs) [] = false
is_prefix (x ∷ xs) (y ∷ ys) = x == y && is_prefix xs ys

-- `strings.Contains`
pub contains : List ℕ → List ℕ → Bool
contains [] path = is_prefix path []
contains (x ∷ xs) path = is_prefix path (x ∷ xs) || contains xs path

-- `/etc/`, `/sys/`, `/boot/` and `~/.ssh/`
abbrev pub forbidden_paths : List (List ℕ)
forbidden_paths =
    (b'/' ∷ b'e' ∷ b't' ∷ b'c' ∷ b'/' ∷ [])
    ∷ (b'/' ∷ b's' ∷ b'y' ∷ b's' ∷ b'/' ∷ [])
    ∷ (b'/' ∷ b'b' ∷ b'o' ∷ b'o' ∷ b't' ∷ b'/' ∷ [])
    ∷ (b'~' ∷ b'/' ∷ b'.' ∷ b's' ∷ b's' ∷ b'h' ∷ b'/' ∷ [])
    ∷ []

pub mentions : List ℕ → List (List ℕ) → Bool
mentions args [] = false
mentions args (p ∷ ps) = contains args p || mentions args ps

-- The file tools that the code knows: the builtin list_dir is not among them.
pub touches_files : String → Bool
touches_files tool = str_eq tool "read_file" || (str_eq tool "write_file" || str_eq tool "bash")

pub heuristic_nodes : List ExecNode → Option DagValidationError
heuristic_nodes [] = none
heuristic_nodes (n ∷ ns) =
    if touches_files n.tool_name && mentions n.args forbidden_paths
    then some (protected_path n.id)
    else heuristic_nodes ns

pub validate_heuristic : DagPlan → Option DagValidationError
validate_heuristic plan =
    if ltb 100 (length plan.nodes)
    then some (scale_exceeded (length plan.nodes))
    else heuristic_nodes plan.nodes

abbrev pub max_l3_calls : ℕ
max_l3_calls = 10

-- An error of the model lets the plan pass.
pub flagged : Option Bool → Option DagValidationError
flagged none = none
flagged (some unsafe_answer) = if unsafe_answer then some flagged_unsafe else none

-- The count of calls, and the error.
pub validate_l3_watchdog : ℕ → Provider → DagPlan → ℕ × Option DagValidationError
validate_l3_watchdog calls provider plan =
    if leb max_l3_calls calls then (calls, none) else (suc calls, flagged (provider plan))

-- The last layer, for strong systems with a model.
pub watch : ℕ → ℕ → Option Provider → DagPlan → ℕ × Option DagValidationError
watch calls tier none plan = (calls, none)
watch calls tier (some provider) plan =
    if leb 1 tier then validate_l3_watchdog calls provider plan else (calls, none)

-- `if err := ...; err != nil { return err }`, before what follows.
abbrev pub or_next :
    Option DagValidationError → Option DagValidationError → Option DagValidationError
or_next none next = next
or_next (some e) next = some e

pub topology_layer : Result Colors → Option DagValidationError
topology_layer (ok colors) = none
topology_layer (err e) = some (topology e)

-- The first error of the layers up to the watchdog.
pub first_layers : DagValidationContext → DagPlan → Option DagValidationError
first_layers v plan = or_next (topology_layer (validate_dag_topology plan)) (
    or_next (validate_taint_gate v plan)
      (or_next (validate_policy_gate v plan) (validate_heuristic plan)))

pub layers :
    DagValidationContext → DagPlan → Option DagValidationError → ℕ × Option DagValidationError
layers v plan (some e) = (v.l3_call_count, some e)
layers v plan none = watch v.l3_call_count v.system_tier v.provider plan

pub validate_plan : DagValidationContext → Option DagPlan → ℕ × Option DagValidationError
validate_plan v none = (v.l3_call_count, some plan_is_nil)
validate_plan v (some plan) = layers v plan (first_layers v plan)

-- The context's count of model calls afterwards, and the error.
pub validate_dag : DagValidationContext → ℕ × Option DagValidationError
validate_dag v = validate_plan v v.plan
