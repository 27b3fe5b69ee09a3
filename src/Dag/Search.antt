-- ===== src/Dag/Search.antt =====
-- What the depth-first search of the topology check leaves behind.
use mathlib.Core.List.{Memᴰ}
use mathlib.Core.WellFounded.{Acc}
use mathlib.Core.Path.{subst}
use polarisagi_harness.Prelude.{
  update, ℕ, zero, suc, ◌≤◌, ◌≡◌, refl, ◌≢◌, inl, inr, List, [], ◌∷◌, String, arith, Bool-cases,
  ==_iff, str_eq, str_eq_iff, ◌==◌, All, All-at,
}
use polarisagi_harness.Dag.{
  ExecNode, DagPlan, TopologyError, Result, ok, err, Colors, white, gray, black, visit_deps, dfs,
  visit_nodes, adjacency, validate_dag_topology, max_depth, ◌>>=◌,
}

-- `y` is a dependency of `x`.
abbrev pub Dep : (String → List String) → String → String → Type 0
Dep adj y x = Memᴰ y (adj x)

-- What holds of the colours between two visits: a finished node is the root of a finite tree of
-- dependencies.
pub record IsGood (adj : String → List String) (c : Colors) : Type 0 where
  pub finished : (x : String) → c x ≡ black → Acc (Dep adj) x
  pub bounded : (x : String) → c x ≤ 2

-- A visit finishes nodes and leaves none unfinished.
pub record Extends (c d : Colors) : Type 0 where
  pub keeps_black : (x : String) → c x ≡ black → d x ≡ black
  pub no_new_gray : (x : String) → d x ≡ gray → c x ≡ gray

Extends-refl : (c : Colors) → Extends c c
Extends-refl c = record { keeps_black = λ x q. q; no_new_gray = λ x q. q }

Extends-trans : {b c d : Colors} → Extends b c → Extends c d → Extends b d
Extends-trans f g = record {
  keeps_black = λ x q. g.keeps_black x (f.keeps_black x q);
  no_new_gray = λ x q. f.no_new_gray x (g.no_new_gray x q);
}

-- What a bind that succeeds has bound.
bind-ok {ℓ μ} :
    {X : Type ℓ} {Y : Type μ} (r : Result X) (next : X → Result Y) {y : Y}
    → (r >>= next) ≡ ok y
    → (x : X) × (r ≡ ok x) × (next x ≡ ok y)
bind-ok (err failed) next q = cc
bind-ok (ok x) next q = (x, refl, q)

err_ne_ok : {A : Type 0} {a : A} {x : TopologyError} → err x ≡ ok a → ⊥
err_ne_ok e = cc

abbrev Visits : (String → List String) → (String → Colors → Result Colors) → Type 0
Visits adj visit =
    (x : String) (c d : Colors)
    → IsGood adj c
    → c x ≡ white
    → visit x c ≡ ok d
    → IsGood adj d × Extends c d × (d x ≡ black)

ok-injective : {A : Type 0} {a b : A} → ok a ≡ ok b → a ≡ b
ok-injective e = cc

visit_deps_lem :
    (adj : String → List String) (visit : String → Colors → Result Colors)
    → Visits adj visit
    → (deps : List String) (c d : Colors) → IsGood adj c
    → visit_deps visit deps c ≡ ok d
    → IsGood adj d × Extends c d × All (λ x. d x ≡ black) deps
unfolding visit_deps
visit_deps_lem adj visit v [] c d g e =
    subst (λ k. IsGood adj k × Extends c k × Unit {0}) (ok-injective e) (g, Extends-refl c, tt)
visit_deps_lem adj visit v (dep ∷ deps) c d g e = elim (Bool-cases (c dep == gray)) [
  | inl p ↦ absurd (err_ne_ok (rw p at e))
  | inr p ↦ elim (Bool-cases (c dep == white)) [
    | inl w ↦
        let (m, e1, e2) = bind-ok (visit dep c) (visit_deps visit deps) (rw (p, w) at e) in
        let (g1, x1, b1) = v dep c m g ((==_iff _ _).0 w) e1 in
        let (g2, x2, b2) = visit_deps_lem adj visit v deps m d g1 e2 in
        (g2, Extends-trans x1 x2, (x2.keeps_black dep b1, b2))
    | inr w ↦
        let (g2, x2, b2) = visit_deps_lem adj visit v deps c d g (rw (p, w) at e) in
        (g2, x2, (x2.keeps_black dep (ground (arith, g.bounded dep)), b2))
  ]
]

-- Colouring a node gray, or one black whose dependencies are black, keeps the colours good.
IsGood-gray :
    (adj : String → List String) (c : Colors) (id : String)
    → IsGood adj c
    → IsGood adj (update c id gray)
unfolding update
IsGood-gray adj c id g = record {
  finished = λ x b. g.finished x (kept x b);
  bounded = λ x. ground (arith, g.bounded x);
}
  where
    kept : (x : String) → update c id gray x ≡ black → c x ≡ black
    kept x b = ground (arith, str_eq_iff id x)

IsGood-black :
    (adj : String → List String) (c : Colors) (id : String)
    → IsGood adj c
    → All (λ x. c x ≡ black) (adj id)
    → IsGood adj (update c id black)
unfolding update
IsGood-black adj c id g a = record {
  finished = λ x b. elim (Bool-cases (str_eq id x)) [
    | inl e ↦
        subst (λ k. Acc (Dep adj) k) ((str_eq_iff id x).0 e)
          (Acc.intro id (λ y m. g.finished y (All-at (λ k. c k ≡ black) (adj id) a m)))
    | inr e ↦ g.finished x (rw e at b)
  ];
  bounded = λ x. ground (arith, g.bounded x);
}

-- The two colourings of a visit, with the visits of the dependencies between them.
Extends-visit :
    (c m : Colors) (id : String)
    → c id ≡ white
    → Extends (update c id gray) m
    → Extends c (update m id black)
unfolding update
Extends-visit c m id w x = record {
  keeps_black = λ y q. ground (arith, str_eq_iff id y, x.keeps_black y);
  no_new_gray = λ y q. ground (arith, str_eq_iff id y, x.no_new_gray y);
}

update_self : (c : Colors) (id : String) → update c id black id ≡ black
unfolding update
update_self c id = ground (arith, str_eq_iff id id)

dfs_lem : (adj : String → List String) (left : ℕ) → Visits adj (dfs left adj)
unfolding dfs
dfs_lem adj zero x c d g w e = absurd (err_ne_ok e)
dfs_lem adj (suc left) x c d g w e =
    let (m, e1, e2) =
      bind-ok (visit_deps (dfs left adj) (adj x) (update c x gray)) (λ k. ok (update k x black))
        e in
    let (g1, x1, b1) =
      visit_deps_lem adj (dfs left adj) (dfs_lem adj left) (adj x) (update c x gray) m
        (IsGood-gray adj c x g) e1 in
    subst (λ k. IsGood adj k × Extends c k × (k x ≡ black)) (ok-injective e2)
      (IsGood-black adj m x g1 b1, Extends-visit c m x w x1, update_self m x)

pub visit_nodes_lem :
    (adj : String → List String) (ns : List ExecNode) (c d : Colors)
    → IsGood adj c
    → ((x : String) → c x ≢ gray)
    → visit_nodes adj ns c ≡ ok d
    → IsGood adj d × Extends c d × All (λ n. d n.id ≡ black) ns
unfolding visit_nodes
visit_nodes_lem adj [] c d g clean e =
    subst (λ k. IsGood adj k × Extends c k × Unit {0}) (ok-injective e) (g, Extends-refl c, tt)
visit_nodes_lem adj (n ∷ ns) c d g clean e = elim (Bool-cases (c n.id == white)) [
  | inl w ↦
      let (m, e1, e2) = bind-ok (dfs (suc max_depth) adj n.id c) (visit_nodes adj ns) (rw w at e) in
      let (g1, x1, b1) = dfs_lem adj (suc max_depth) n.id c m g ((==_iff _ _).0 w) e1 in
      let (g2, x2, b2) = visit_nodes_lem adj ns m d g1 (λ x q. clean x (x1.no_new_gray x q)) e2 in
      (g2, Extends-trans x1 x2, (x2.keeps_black n.id b1, b2))
  | inr w ↦
      let (g2, x2, b2) = visit_nodes_lem adj ns c d g clean (rw w at e) in
      (g2, x2, (x2.keeps_black n.id (ground (arith, g.bounded n.id, clean n.id)), b2))
]

pub validate_visits :
    (plan : DagPlan) (d : Colors)
    → validate_dag_topology plan ≡ ok d
    → visit_nodes (adjacency plan) plan.nodes (λ _. white) ≡ ok d
unfolding validate_dag_topology
validate_visits plan d e = ground arith
