-- ===== src/Dag/Shape.antt =====
-- What else a plan that passes L0 looks like: its size, and that no node stands alone.
use mathlib.Core.List.{Memᴰ}
use polarisagi_harness.Prelude.{
  suc, ◌≤◌, ◌≡◌, ◌≢◌, refl, sym, ◌⊎◌, inl, inr, List, [], ◌∷◌, String, arith, Bool-cases, str_eq,
  str_eq_iff, none, length, All, All-map, update_lem, ltb,
}
use polarisagi_harness.Dag.{
  ExecNode, DagPlan, Degrees, count_dep, count_deps, count_nodes, degrees, is_nil, find_isolated,
  Colors, ok, validate_dag_topology,
}

-- An edge starts or ends at the id: its node declares a dependency, or a node depends on it.
abbrev pub Touches : List ExecNode → String → Type 0
Touches [] x = ⊥
Touches (m ∷ ms) x = ((m.id ≡ x) × (m.depends_on ≢ [])) ⊎ (Memᴰ x m.depends_on ⊎ Touches ms x)

count_deps-in :
    (d : Degrees) (n x : String) (deps : List String)
    → ((count_deps d n deps).in_deg x ≡ d.in_deg x) ⊎ ((n ≡ x) × (deps ≢ []))
unfolding count_deps count_dep
count_deps-in d n x [] = inl refl
count_deps-in d n x (dep ∷ deps) = elim (Bool-cases (str_eq n x)) [
  | inl t ↦ inr ((str_eq_iff n x).0 t, λ e. cc)
  | inr f ↦ elim (count_deps-in (count_dep d n dep) n x deps) [
    | inl p ↦ inl (ground (arith, p, update_lem d.in_deg n (suc (d.in_deg n)) x))
    | inr (p, q) ↦ inr (p, λ e. cc)
  ]
]

count_deps-out :
    (d : Degrees) (n x : String) (deps : List String)
    → ((count_deps d n deps).out_deg x ≡ d.out_deg x) ⊎ Memᴰ x deps
unfolding count_deps count_dep
count_deps-out d n x [] = inl refl
count_deps-out d n x (dep ∷ deps) = elim (Bool-cases (str_eq dep x)) [
  | inl t ↦ inr (Memᴰ.head (sym ((str_eq_iff dep x).0 t)))
  | inr f ↦ elim (count_deps-out (count_dep d n dep) n x deps) [
    | inl p ↦ inl (ground (arith, p, update_lem d.out_deg dep (suc (d.out_deg dep)) x))
    | inr m ↦ inr (Memᴰ.tail m)
  ]
]

count_nodes-Touches :
    (d : Degrees) (ns : List ExecNode) (x : String)
    → (((count_nodes d ns).in_deg x ≡ d.in_deg x) × ((count_nodes d ns).out_deg x ≡ d.out_deg x))
      ⊎ Touches ns x
unfolding count_nodes
count_nodes-Touches d [] x = inl (refl, refl)
count_nodes-Touches d (n ∷ ns) x = elim (count_deps-in d n.id x n.depends_on) [
  | inr t ↦ inr (inl t)
  | inl p ↦ elim (count_deps-out d n.id x n.depends_on) [
    | inr m ↦ inr (inr (inl m))
    | inl q ↦ elim (count_nodes-Touches (count_deps d n.id n.depends_on) ns x) [
      | inl (r, s) ↦ inl (cc, cc)
      | inr t ↦ inr (inr (inr t))
    ]
  ]
]

find_isolated-none :
    (d : Degrees) (ns : List ExecNode)
    → find_isolated d ns ≡ none
    → All (λ n. (d.in_deg n.id ≢ 0) ⊎ ((d.out_deg n.id ≢ 0) ⊎ (n.depends_on ≢ []))) ns
unfolding find_isolated is_nil
find_isolated-none d [] e = tt
find_isolated-none d (n ∷ ns) e = (ground arith, find_isolated-none d ns (ground arith))

connected :
    (plan : DagPlan) (n : ExecNode)
    → (((degrees plan).in_deg n.id ≢ 0) ⊎ (((degrees plan).out_deg n.id ≢ 0) ⊎ (n.depends_on ≢ [])))
    → (n.depends_on ≢ []) ⊎ Touches plan.nodes n.id
unfolding degrees
connected plan n (inr (inr q)) = inl q
connected plan n (inl p) =
    elim (count_nodes-Touches (record { in_deg = λ _. 0; out_deg = λ _. 0 }) plan.nodes n.id) [
      | inl (r, s) ↦ absurd (p r)
      | inr t ↦ inr t
    ]
connected plan n (inr (inl p)) =
    elim (count_nodes-Touches (record { in_deg = λ _. 0; out_deg = λ _. 0 }) plan.nodes n.id) [
      | inl (r, s) ↦ absurd (p s)
      | inr t ↦ inr t
    ]

-- A plan that the topology check accepts has at most 50 nodes, and unless it is a single node each
-- of them has a dependency or is one.
pub validate-shape :
    (plan : DagPlan) (d : Colors)
    → validate_dag_topology plan ≡ ok d
    → (length plan.nodes ≤ 50)
      × ((length plan.nodes ≤ 1)
          ⊎ All (λ n. (n.depends_on ≢ []) ⊎ Touches plan.nodes n.id) plan.nodes)
unfolding validate_dag_topology
validate-shape plan d e = elim (Bool-cases (ltb 1 (length plan.nodes))) [
  | inr f ↦ (ground arith, inl (ground arith))
  | inl t ↦ (
    ground arith,
    inr (
        All-map
          (λ n.
            ((degrees plan).in_deg n.id ≢ 0)
            ⊎ (((degrees plan).out_deg n.id ≢ 0) ⊎ (n.depends_on ≢ [])))
          (λ n. (n.depends_on ≢ []) ⊎ Touches plan.nodes n.id) plan.nodes (connected plan)
          (find_isolated-none (degrees plan) plan.nodes (ground arith))),
  )
]
