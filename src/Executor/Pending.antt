-- ===== src/Executor/Pending.antt =====
-- Why a node can be marked as in progress: it waits, runs, was cut off by a failure, or returned nil.
use mathlib.Core.Path.{subst}
use mathlib.Core.Option.{some-injective}
use polarisagi_harness.Prelude.{
  ℕ, zero, suc, ◌≡◌, refl, ◌⊎◌, inl, inr, true, false, Option, none, some, List, [], ◌∷◌, arith,
  length, ltb, Option-cases, Bool-cases, String, str_eq, str_eq_iff, update, update_lem,
}
use polarisagi_harness.Dag.{DagPlan, ExecNode}
use polarisagi_harness.Executor.{
  Completed, Entry, called, returned, gave_up, Exec, Event, schedule, start, finish, Outcome,
  success, failure, initial, tier0_max_concurrency, take_at, start_round, start_node, finish_node,
  step, run_events, find_ready_nodes, mark_in_progress, is_idle,
}
use polarisagi_harness.Executor.Schedule.{none_ne_some, run_events_inv}

-- Some node of the list has the id.
abbrev pub HasId : List ExecNode → String → Type 0
HasId [] d = ⊥
HasId (n ∷ ns) d = (n.id ≡ d) ⊎ HasId ns d

-- A node with this id has returned nil.
abbrev pub HasNil : List Entry → String → Type 0
HasNil [] d = ⊥
HasNil (called n ∷ l) d = HasNil l d
HasNil (returned n none ∷ l) d = (n.id ≡ d) ⊎ HasNil l d
HasNil (returned n (some o) ∷ l) d = HasNil l d
HasNil (gave_up n e ∷ l) d = HasNil l d

-- Why an id can be marked as in progress.
abbrev pub Open : Exec → String → Type 0
Open s d = HasId s.waiting d ⊎ (HasId s.running d ⊎ ((s.failed ≡ true) ⊎ HasNil s.log d))

abbrev pub Inv : Exec → Type 0
Inv s = (d : String) → s.completed d ≡ some none → Open s d

HasId-take_at :
    (i : ℕ) (xs : List ExecNode) (y : ExecNode) (ys : List ExecNode) (d : String)
    → take_at i xs ≡ some (y, ys)
    → HasId xs d
    → (y.id ≡ d) ⊎ HasId ys d
unfolding take_at
HasId-take_at i [] y ys d e h = elim h [ ]
HasId-take_at zero (x ∷ xs) y ys d e h =
    subst (λ (r : ExecNode × List ExecNode). (r.0.id ≡ d) ⊎ HasId r.1 d)
      (some-injective (x, xs) (y, ys) e) h
HasId-take_at (suc i) (x ∷ xs) y ys d e h = elim (Option-cases (take_at i xs)) [
  | inl n ↦ absurd (none_ne_some (rw n at e))
  | inr ((z, zs), q) ↦
      subst (λ (r : ExecNode × List ExecNode). (r.0.id ≡ d) ⊎ HasId r.1 d)
        (some-injective (z, x ∷ zs) (y, ys) (rw q at e))
        (elim h [ inl p ↦ inr (inl p) | inr t ↦ later z zs (HasId-take_at i xs z zs d q t) ])
]
  where
    later :
        (z : ExecNode) (zs : List ExecNode)
        → ((z.id ≡ d) ⊎ HasId zs d)
        → (z.id ≡ d) ⊎ ((x.id ≡ d) ⊎ HasId zs d)
    later z zs (inl p) = inl p
    later z zs (inr t) = inr (inr t)

mark_in_progress-nil :
    (c : Completed) (ns : List ExecNode) (d : String)
    → mark_in_progress c ns d ≡ some none
    → HasId ns d ⊎ (c d ≡ some none)
unfolding mark_in_progress
mark_in_progress-nil c [] d e = inr e
mark_in_progress-nil c (n ∷ ns) d e =
    elim (mark_in_progress-nil (update c n.id (some none)) ns d e) [
      | inl h ↦ inl (inr h)
      | inr q ↦ elim (Bool-cases (str_eq n.id d)) [
        | inl t ↦ inl (inl ((str_eq_iff n.id d).0 t))
        | inr f ↦ inr (ground (arith, q, update_lem c n.id (some none) d))
      ]
    ]

idle_waiting : (s : Exec) (d : String) → is_idle s ≡ true → ¬ HasId s.waiting d
idle_waiting s d i h = ground arith

start_round-Inv :
    (s s' : Exec) (ns : List ExecNode)
    → is_idle s ≡ true
    → start_round s ns ≡ some s'
    → Inv s
    → Inv s'
unfolding start_round
start_round-Inv s s' [] i e v = absurd (none_ne_some e)
start_round-Inv s s' (n ∷ ns) i e v = subst Inv (some-injective _ s' e) λ d q.
    elim (mark_in_progress-nil s.completed (n ∷ ns) d q) [
      | inl h ↦ inl h
      | inr old ↦ carry d (v d old)
    ]
  where
    carry :
        (d : String)
        → Open s d
        → HasId (n ∷ ns) d ⊎ (HasId s.running d ⊎ ((s.failed ≡ true) ⊎ HasNil s.log d))
    carry d (inl w) = absurd (idle_waiting s d i w)
    carry d (inr r) = inr r

start_node-Inv :
    (s s' : Exec) (r : Option (ExecNode × List ExecNode))
    → ((n : ExecNode) (rest : List ExecNode) (d : String)
        → r ≡ some (n, rest)
        → HasId s.waiting d
        → (n.id ≡ d) ⊎ HasId rest d)
    → start_node s r ≡ some s'
    → Inv s
    → Inv s'
unfolding start_node
start_node-Inv s s' none m e v = absurd (none_ne_some e)
start_node-Inv s s' (some (n, rest)) m e v =
    elim (Bool-cases (ltb (length s.running) tier0_max_concurrency)) [
      | inr w ↦ absurd (none_ne_some (rw w at e))
      | inl u ↦ elim (Bool-cases s.failed) [
        | inl t ↦ subst Inv (some-injective _ s' (rw (u, t) at e)) (λ d q. inr (inr (inl refl)))
        | inr f ↦
            subst Inv (some-injective _ s' (rw (u, f) at e)) (λ d q. rw f at (begun d (v d q)))
      ]
    ]
  where
    moved :
        (d : String)
        → ((n.id ≡ d) ⊎ HasId rest d)
        → HasId rest d ⊎ (((n.id ≡ d) ⊎ HasId s.running d) ⊎ ((s.failed ≡ true) ⊎ HasNil s.log d))
    moved d (inl p) = inr (inl (inl p))
    moved d (inr h) = inl h

    begun :
        (d : String)
        → Open s d
        → HasId rest d ⊎ (((n.id ≡ d) ⊎ HasId s.running d) ⊎ ((s.failed ≡ true) ⊎ HasNil s.log d))
    begun d (inl w) = moved d (m n rest d refl w)
    begun d (inr (inl r)) = inr (inl (inr r))
    begun d (inr (inr x)) = inr (inr x)

finish_node-Inv :
    (s s' : Exec) (r : Option (ExecNode × List ExecNode)) (o : Outcome)
    → ((n : ExecNode) (rest : List ExecNode) (d : String)
        → r ≡ some (n, rest)
        → HasId s.running d
        → (n.id ≡ d) ⊎ HasId rest d)
    → finish_node s r o ≡ some s'
    → Inv s
    → Inv s'
unfolding finish_node
finish_node-Inv s s' none o m e v = absurd (none_ne_some e)
finish_node-Inv s s' (some (n, rest)) (success (some out)) m e v =
    subst Inv (some-injective _ s' e) (λ d q. returns d (Bool-cases (str_eq n.id d)) q)
  where
    left :
        (d : String)
        → str_eq n.id d ≡ false
        → Open s d
        → HasId s.waiting d ⊎ (HasId rest d ⊎ ((s.failed ≡ true) ⊎ HasNil s.log d))
    left d f (inl w) = inl w
    left d f (inr (inl r)) = elim (m n rest d refl r) [
      | inl p ↦ absurd (ground (arith, str_eq_iff n.id d))
      | inr h ↦ inr (inl h)
    ]
    left d f (inr (inr x)) = inr (inr x)

    returns :
        (d : String)
        → ((str_eq n.id d ≡ true) ⊎ (str_eq n.id d ≡ false))
        → update s.completed n.id (some (some out)) d ≡ some none
        → HasId s.waiting d ⊎ (HasId rest d ⊎ ((s.failed ≡ true) ⊎ HasNil s.log d))
    returns d (inl t) q =
        absurd (ground (arith, q, update_lem s.completed n.id (some (some out)) d))
    returns d (inr f) q =
        left d f (v d (ground (arith, q, update_lem s.completed n.id (some (some out)) d)))
finish_node-Inv s s' (some (n, rest)) (success none) m e v =
    subst Inv (some-injective _ s' e) (λ d q. returns d (Bool-cases (str_eq n.id d)) q)
  where
    left :
        (d : String)
        → Open s d
        → HasId s.waiting d ⊎ (HasId rest d ⊎ ((s.failed ≡ true) ⊎ ((n.id ≡ d) ⊎ HasNil s.log d)))
    left d (inl w) = inl w
    left d (inr (inl r)) = elim (m n rest d refl r) [
      | inl p ↦ inr (inr (inr (inl p)))
      | inr h ↦ inr (inl h)
    ]
    left d (inr (inr (inl x))) = inr (inr (inl x))
    left d (inr (inr (inr x))) = inr (inr (inr (inr x)))

    returns :
        (d : String)
        → ((str_eq n.id d ≡ true) ⊎ (str_eq n.id d ≡ false))
        → update s.completed n.id (some none) d ≡ some none
        → HasId s.waiting d ⊎ (HasId rest d ⊎ ((s.failed ≡ true) ⊎ ((n.id ≡ d) ⊎ HasNil s.log d)))
    returns d (inl t) q = inr (inr (inr (inl ((str_eq_iff n.id d).0 t))))
    returns d (inr f) q =
        left d (v d (ground (arith, q, update_lem s.completed n.id (some none) d)))
finish_node-Inv s s' (some (n, rest)) (failure x) m e v =
    subst Inv (some-injective _ s' e) (λ d q. inr (inr (inl refl)))

step-Inv : (plan : DagPlan) (s s' : Exec) (e : Event) → step plan s e ≡ some s' → Inv s → Inv s'
unfolding step
step-Inv plan s s' schedule e v =
    start_round-Inv s s' (find_ready_nodes plan s.completed) (ground arith) (ground arith) v
step-Inv plan s s' (start i) e v =
    start_node-Inv s s' (take_at i s.waiting) (λ n rest d. HasId-take_at i s.waiting n rest d) e v
step-Inv plan s s' (finish i o) e v =
    finish_node-Inv s s' (take_at i s.running) o (λ n rest d. HasId-take_at i s.running n rest d) e
      v

-- At every moment of every schedule.
pub run_events-Inv :
    (plan : DagPlan) (es : List Event) (s : Exec) → run_events plan initial es ≡ some s → Inv s
unfolding initial
run_events-Inv plan es s e =
    run_events_inv plan Inv (step-Inv plan) es initial s e (λ d q. absurd (none_ne_some q))
