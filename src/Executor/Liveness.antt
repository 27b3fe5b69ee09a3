-- ===== src/Executor/Liveness.antt =====
-- When Execute reports success, and when that means that every node has run.
use mathlib.Core.Path.{subst}
use mathlib.Core.List.{Memᴰ}
use mathlib.Core.List.Memᴰ
use mathlib.Core.WellFounded.{Acc}
use polarisagi_harness.Prelude.{
  ◌≡◌, ◌≢◌, refl, sym, ap, ◌∙◌, inl, inr, true, false, not, ◌&&◌, Option, none, some, List, [], ◌∷◌,
  arith, Bool-cases, String, All, All-at,
}
use polarisagi_harness.Dag.{DagPlan, ExecNode, Colors, ok, adjacency, validate_dag_topology}
use polarisagi_harness.Dag.Search.{Dep}
use polarisagi_harness.Dag.Acyclic.{validate-Acc}
use polarisagi_harness.Executor.{
  Output, Completed, NodeResult, Exec, Event, initial, run_events, find_ready_nodes, collect_ready,
  sort_by_id, insert_by_id, all_ready, has_output, is_scheduled, conclude, is_idle, finished,
  id_less,
}
use polarisagi_harness.Dag.Adjacency.{HasDistinctIds, adjacency_lem}
use polarisagi_harness.Executor.Pending.{HasId, HasNil, Open, run_events-Inv}

-- Every dependency is the id of a node of the plan.
abbrev pub HasKnownDeps : DagPlan → Type 0
HasKnownDeps plan = All (λ n. All (HasId plan.nodes) n.depends_on) plan.nodes

cons_ne_nil {ℓ} : {A : Type ℓ} {x : A} {xs : List A} → (x ∷ xs) ≡ [] → ⊥
cons_ne_nil e = cc

insert_by_id-ne-nil : (n : ExecNode) (ms : List ExecNode) → insert_by_id n ms ≢ []
unfolding insert_by_id
insert_by_id-ne-nil n [] e = cc
insert_by_id-ne-nil n (m ∷ ms) e = elim (Bool-cases (id_less m n)) [
  | inl t ↦ cons_ne_nil (rw t at e)
  | inr f ↦ cons_ne_nil (rw f at e)
]

sort_by_id-eq-nil : (ns : List ExecNode) → sort_by_id ns ≡ [] → ns ≡ []
unfolding sort_by_id
sort_by_id-eq-nil [] e = refl
sort_by_id-eq-nil (n ∷ ns) e = absurd (insert_by_id-ne-nil n (sort_by_id ns) e)

true_ne_false : true ≡ false → ⊥
true_ne_false e = cc

none_ready :
    (c : Completed) (ns : List ExecNode)
    → collect_ready c ns ≡ []
    → (m : ExecNode) → Memᴰ m ns
    → c m.id ≡ none
    → all_ready c m.depends_on ≡ false
unfolding collect_ready
none_ready c [] e m i q = elim i [ ]
none_ready c (n ∷ ns) e m i q =
    elim (Bool-cases (not (is_scheduled (c n.id)) && all_ready c n.depends_on)) [
      | inl t ↦ absurd (cons_ne_nil (rw t at e))
      | inr f ↦ elim (Memᴰ.cases_cons i) [
        | inl p ↦
            ground (arith, ap (λ (k : ExecNode). k.id) p, ap (λ (k : ExecNode). k.depends_on) p)
        | inr r ↦ none_ready c ns (rw f at e) m r q
      ]
    ]

sorted_away :
    (plan : DagPlan) (c : Completed)
    → find_ready_nodes plan c ≡ []
    → collect_ready c plan.nodes ≡ []
unfolding find_ready_nodes
sorted_away plan c e = sort_by_id-eq-nil (collect_ready c plan.nodes) e

node_of : (ns : List ExecNode) (x : String) → HasId ns x → (m : ExecNode) × Memᴰ m ns × (m.id ≡ x)
node_of [] x h = elim h [ ]
node_of (n ∷ ns) x (inl p) = (n, Memᴰ.head refl, p)
node_of (n ∷ ns) x (inr h) = let (m, i, q) = node_of ns x h in (m, Memᴰ.tail i, q)

all_ready-intro :
    (c : Completed) (ds : List String)
    → ((y : String) → Memᴰ y ds → has_output (c y) ≡ true)
    → all_ready c ds ≡ true
unfolding all_ready
all_ready-intro c [] h = refl
all_ready-intro c (d ∷ ds) h =
    ground (arith, h d (Memᴰ.head refl), all_ready-intro c ds (λ y i. h y (Memᴰ.tail i)))

settled : (o : Option Output) → o ≢ some none → o ≢ none → has_output o ≡ true
unfolding has_output
settled none a b = absurd (b refl)
settled (some none) a b = absurd (a refl)
settled (some (some out)) a b = refl

module _ (plan : DagPlan) (c : Completed) (distinct : HasDistinctIds plan.nodes)
    (known : HasKnownDeps plan) (quiet : collect_ready c plan.nodes ≡ [])
    (closed : (d : String) → c d ≢ some none) where
  -- By induction on the tree of dependencies.
  completes :
      (x : String) → Acc (Dep (adjacency plan)) x → HasId plan.nodes x → has_output (c x) ≡ true
  completes x (Acc.intro _ smaller) h =
      let (m, i, p) = node_of plan.nodes x h in
      let deps : m.depends_on ≡ adjacency plan x =
        sym (
          All-at (λ n. adjacency plan n.id ≡ n.depends_on) plan.nodes (adjacency_lem plan distinct)
            i)
        ∙ ap (adjacency plan) p in
      let ready : all_ready c m.depends_on ≡ true = all_ready-intro c m.depends_on λ y j.
        completes y (smaller y (subst (Memᴰ y) deps j)) (
          All-at (HasId plan.nodes) m.depends_on
            (All-at (λ n. All (HasId plan.nodes) n.depends_on) plan.nodes known i) j) in
      settled (c x) (closed x)
        (λ q. true_ne_false (sym ready ∙ none_ready c plan.nodes quiet m i (ap c p ∙ q)))

All-with_id :
    (P Q : String → Type 0) (ns : List ExecNode)
    → ((x : String) → P x → HasId ns x → Q x)
    → All (λ n. P n.id) ns
    → All (λ n. Q n.id) ns
All-with_id P Q [] f a = tt
All-with_id P Q (n ∷ ns) f a =
    (f n.id a.0 (inl refl), All-with_id P Q ns (λ x p h. f x p (inr h)) a.1)

idle_settled :
    (s : Exec) (d : String) → is_idle s ≡ true → s.failed ≡ false → ¬ HasNil s.log d → ¬ Open s d
idle_settled s d i f n (inl w) = ground (arith, w)
idle_settled s d i f n (inr (inl r)) = ground (arith, r)
idle_settled s d i f n (inr (inr (inl t))) = cc
idle_settled s d i f n (inr (inr (inr x))) = n x

-- If ids are distinct, every dependency is a node, and no node returned nil, then a plan that the
-- topology check accepts is executed whole whenever Execute reports success: under any schedule,
-- every node has its output.
pub success_is_complete :
    (plan : DagPlan) (colors : Colors) (es : List Event) (s : Exec) (rs : List NodeResult)
    → validate_dag_topology plan ≡ ok colors
    → HasDistinctIds plan.nodes
    → HasKnownDeps plan
    → run_events plan initial es ≡ some s
    → ((d : String) → ¬ HasNil s.log d)
    → conclude plan s ≡ some (finished rs)
    → All (λ n. has_output (s.completed n.id) ≡ true) plan.nodes
unfolding conclude
success_is_complete plan colors es s rs v distinct known e n q =
    All-with_id (λ x. Acc (Dep (adjacency plan)) x) (λ x. has_output (s.completed x) ≡ true)
      plan.nodes
      (completes plan s.completed distinct known (sorted_away plan s.completed (ground arith))
        (λ d r.
          idle_settled s d (ground arith) (ground arith) (n d) (run_events-Inv plan es s e d r)))
      (validate-Acc plan colors v)
