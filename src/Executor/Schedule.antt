-- ===== src/Executor/Schedule.antt =====
-- Facts on the steps of an execution that the other modules share.
use mathlib.Core.Path.{subst}
use mathlib.Core.Option.{some-injective}
use polarisagi_harness.Prelude.{
  ℕ, zero, suc, ◌≡◌, inl, inr, none, some, List, [], ◌∷◌, arith, length, Option-cases, Bool-cases,
  All,
}
use polarisagi_harness.Dag.{DagPlan, ExecNode}
use polarisagi_harness.Executor.{
  Exec, Event, take_at, step, run_events, id_less, insert_by_id, sort_by_id,
}

pub none_ne_some {ℓ} : {A : Type ℓ} {a : A} → none ≡ some a → ⊥
none_ne_some e = cc

-- Taking an element leaves a list that is one shorter.
pub length-take_at {ℓ} :
    {A : Type ℓ} (i : ℕ) (xs : List A) (y : A) (ys : List A)
    → take_at i xs ≡ some (y, ys)
    → length xs ≡ suc (length ys)
unfolding take_at
length-take_at i [] y ys e = cc
length-take_at zero (x ∷ xs) y ys e = ground arith
length-take_at (suc i) (x ∷ xs) y ys e = elim (Option-cases (take_at i xs)) [
  | inl n ↦ absurd (ground (arith, n))
  | inr ((z, zs), q) ↦ ground (arith, length-take_at i xs z zs q, q)
]

-- What every step keeps holds at the end of a schedule.
pub run_events_inv {ℓ} :
    (plan : DagPlan) (P : Exec → Type ℓ)
    → ((s s' : Exec) (e : Event) → step plan s e ≡ some s' → P s → P s')
    → (es : List Event) (s s' : Exec) → run_events plan s es ≡ some s'
    → P s
    → P s'
unfolding run_events
run_events_inv plan P keep [] s s' e p = subst P (some-injective s s' e) p
run_events_inv plan P keep (x ∷ es) s s' e p = elim (Option-cases (step plan s x)) [
  | inl n ↦ absurd (ground (arith, n))
  | inr (t, q) ↦ run_events_inv plan P keep es t s' (rw (q, run_events) at e) (keep s t x q p)
]

pub All-take_at {ℓ κ} :
    {A : Type ℓ} (P : A → Type κ) (i : ℕ) (xs : List A) (y : A) (ys : List A)
    → take_at i xs ≡ some (y, ys)
    → All P xs
    → P y × All P ys
unfolding take_at
All-take_at {A} P i [] y ys e a = absurd (none_ne_some e)
All-take_at {A} P zero (x ∷ xs) y ys e a =
    subst (λ (r : A × List A). P r.0 × All P r.1) (some-injective (x, xs) (y, ys) e) a
All-take_at {A} P (suc i) (x ∷ xs) y ys e a = elim (Option-cases (take_at i xs)) [
  | inl n ↦ absurd (none_ne_some (rw n at e))
  | inr ((z, zs), q) ↦
      let (pz, azs) = All-take_at P i xs z zs q a.1 in
      subst (λ (r : A × List A). P r.0 × All P r.1) (some-injective (z, x ∷ zs) (y, ys) (rw q at e))
        (pz, (a.0, azs))
]

pub insert_by_id-All {κ} :
    (P : ExecNode → Type κ) (n : ExecNode) (ms : List ExecNode)
    → P n
    → All P ms
    → All P (insert_by_id n ms)
unfolding insert_by_id
insert_by_id-All P n [] p a = (p, tt)
insert_by_id-All P n (m ∷ ms) p a = elim (Bool-cases (id_less m n)) [
  | inl t ↦ rw t (a.0, insert_by_id-All P n ms p a.1)
  | inr f ↦ rw f (p, a)
]

pub sort_by_id-All {κ} :
    (P : ExecNode → Type κ) (ns : List ExecNode) → All P ns → All P (sort_by_id ns)
unfolding sort_by_id
sort_by_id-All P [] a = tt
sort_by_id-All P (n ∷ ns) a = insert_by_id-All P n (sort_by_id ns) a.0 (sort_by_id-All P ns a.1)
