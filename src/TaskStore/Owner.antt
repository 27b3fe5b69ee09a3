-- ===== src/TaskStore/Owner.antt =====
-- Who holds a task: the agent whose claim succeeded, until a reaper takes the task back.
use mathlib.Core.Path.{subst}
use polarisagi_harness.Prelude.{
  ℕ, ◌<◌, ◌≡◌, ◌≢◌, refl, sym, ap, ◌∙◌, ◌⊎◌, inl, inr, Bool, true, false, Option, none, some, List,
  [], ◌∷◌, String, All, Bool-cases, arith, ◌==◌, str_eq_iff,
}
use polarisagi_harness.TaskStore.Rows.{Row, pending, find, rows_affected}
use polarisagi_harness.TaskStore.Table.{
  Unique, KeepsId, changed, in_status_eq, affected-find, OnlyOf, find-update_where, counted,
}
use polarisagi_harness.TaskStore.Handlers.{
  Store, is_claimed, can_claim, claim_row, stop_row, claim_task,
}
use polarisagi_harness.TaskStore.Reaping.{reap_row}
use polarisagi_harness.TaskStore.Change.{
  Updates, claims, starts, completes, fails, renews, suspends, approves, denies, begins, undoes,
  stops, reaps, Change, stays, creates, updates, removes, after,
}
use polarisagi_harness.TaskStore.Board.{Op, claim, run_ops, apply, act, new_board}
use polarisagi_harness.TaskStore.Changes.{Allows, run_ops-Follows, any_Allows, new_board-Unique}

-- A task that is not pending stays so, with its owner, unless a reaper takes it back.
abbrev Keeps : Row → Row → Type 0
Keeps r s =
    (r.toxicity < s.toxicity)
    ⊎ ((r.toxicity ≡ s.toxicity)
        × (r.status ≢ pending → (s.status ≢ pending) × (s.claimed_by ≡ r.claimed_by)))

Updates-Keeps : {r s : Row} → Updates r s → Keeps r s
unfolding claim_row stop_row reap_row
Updates-Keeps (claims agent now e) = inr (refl, λ n. absurd (n e))
Updates-Keeps (starts now e) = inr (refl, λ n. (λ q. ground arith, refl))
Updates-Keeps (completes now e) = inr (refl, λ n. (λ q. ground arith, refl))
Updates-Keeps (fails now e) = inr (refl, λ n. (λ q. ground arith, refl))
Updates-Keeps (renews now t e) = inr (refl, λ n. (λ q. ground arith, refl))
Updates-Keeps (suspends now t e) = inr (refl, λ n. (λ q. ground arith, refl))
Updates-Keeps (approves now t e) = inr (refl, λ n. (λ q. ground arith, refl))
Updates-Keeps (denies now t e) = inr (refl, λ n. (λ q. ground arith, refl))
Updates-Keeps (begins now t e) = inr (refl, λ n. (λ q. ground arith, refl))
Updates-Keeps (undoes now e) = inr (refl, λ n. (λ q. ground arith, refl))
Updates-Keeps (stops reason now e) = inr (refl, λ n. (λ q. ground arith, refl))
Updates-Keeps (reaps now e) = inl (omega arith)

Keeps-trans : (r s t : Row) → Keeps r s → Keeps s t → Keeps r t
Keeps-trans r s t (inl k) (inl l) = inl (omega (arith, k, l))
Keeps-trans r s t (inl k) (inr (e, g)) = inl (omega (arith, k, e))
Keeps-trans r s t (inr (e, f)) (inl l) = inl (omega (arith, e, l))
Keeps-trans r s t (inr (e, f)) (inr (e', g)) =
    inr (e ∙ e', λ n. let (m, o) = f n in let (m', o') = g m in (m', o' ∙ o))

abbrev KeptIn : Option Row → Option Row → Type 0
KeptIn none p = Unit
KeptIn (some r) none = ⊥
KeptIn (some r) (some s) = Keeps r s

KeptIn-refl : (o : Option Row) → KeptIn o o
KeptIn-refl none = tt
KeptIn-refl (some r) = inr (refl, λ n. (n, refl))

KeptIn-trans : (a b c : Option Row) → KeptIn a b → KeptIn b c → KeptIn a c
KeptIn-trans none b c k l = tt
KeptIn-trans (some r) none c k l = absurd k
KeptIn-trans (some r) (some s) none k l = absurd l
KeptIn-trans (some r) (some s) (some t) k l = Keeps-trans r s t k l

Change-KeptIn : {o p : Option Row} → Change false o p → KeptIn o p
Change-KeptIn {o} stays = KeptIn-refl o
Change-KeptIn (creates t now) = tt
Change-KeptIn (updates u) = Updates-Keeps u
Change-KeptIn (removes now e g) = absurd (ground (arith, e))
Change-KeptIn (after {a} {b} {c} x y) = KeptIn-trans a b c (Change-KeptIn x) (Change-KeptIn y)

can_claim-OnlyOf : (id : String) → OnlyOf id (can_claim id)
can_claim-OnlyOf id r e = ground (arith, e, str_eq_iff r.task_id id)

-- A claim says yes exactly if the task is there and pending.
claim_task-yes :
    (up : Bool) (b : Store) (id agent : String) (now : ℕ)
    → (claim_task up b id agent now).1 ≡ is_claimed true
    → (up ≡ true) × ((rows_affected (can_claim id) b.rows == 0) ≡ false)
unfolding claim_task
claim_task-yes up b id agent now e = elim (Bool-cases up) [
  | inr f ↦ ground (arith, (rw f at e))
  | inl t ↦ elim (Bool-cases (rows_affected (can_claim id) b.rows == 0)) [
    | inl z ↦ ground (arith, (rw (t, z) at e))
    | inr p ↦ (t, p)
  ]
]

counted-pos :
    (id : String) (o : Option Row)
    → (counted (can_claim id) o == 0) ≡ false
    → (r : Row) × (o ≡ some r) × (can_claim id r ≡ true)
counted-pos id none e = ground arith
counted-pos id (some r) e = (r, refl, ground arith)

-- The pending row that a successful claim has found.
claim_task-found :
    (up : Bool) (b : Store) (id agent : String) (now : ℕ)
    → Unique b.rows
    → (claim_task up b id agent now).1 ≡ is_claimed true
    → (r : Row) × (find id b.rows ≡ some r) × (can_claim id r ≡ true)
claim_task-found up b id agent now u e =
    let (t, p) = claim_task-yes up b id agent now e in
    counted-pos id (find id b.rows) (
      subst (λ n. (n == 0) ≡ false) (affected-find (can_claim id) id b.rows (can_claim-OnlyOf id) u)
        p)

claim_row-KeepsId : (agent : String) (now : ℕ) → KeepsId (claim_row agent now)
unfolding claim_row
claim_row-KeepsId agent now r = refl

claim_task-writes :
    (up : Bool) (b : Store) (id agent : String) (now : ℕ) (r : Row)
    → (claim_task up b id agent now).1 ≡ is_claimed true
    → find id b.rows ≡ some r
    → can_claim id r ≡ true
    → find id (claim_task up b id agent now).0.rows ≡ some (claim_row agent now r)
claim_task-writes up b id agent now r e f c =
    let (t, p) = claim_task-yes up b id agent now e in
    unfold claim_task in
    rw (t, p)
      (find-update_where (can_claim id) (claim_row agent now) (claim_row-KeepsId agent now) id
          b.rows
        ∙ ap (changed (can_claim id) (claim_row agent now)) f
        ∙ (rw c))

KeptIn-some : (r : Row) (o : Option Row) → KeptIn (some r) o → (s : Row) × (o ≡ some s) × Keeps r s
KeptIn-some r none k = absurd k
KeptIn-some r (some s) k = (s, refl, k)

can_claim-pending : (id : String) (r : Row) → can_claim id r ≡ true → r.status ≡ pending
can_claim-pending id r c = in_status_eq pending r (ground arith)

-- No claim of a task that is not pending.
pub claim_task-refuses :
    (up : Bool) (b : Store) (id agent : String) (now : ℕ) (s : Row)
    → Unique b.rows
    → find id b.rows ≡ some s
    → s.status ≢ pending
    → (claim_task up b id agent now).1 ≢ is_claimed true
claim_task-refuses up b id agent now s u f m e =
    let (r, g, c) = claim_task-found up b id agent now u e in
    m (can_claim-pending id s (ground (arith, sym f ∙ g, c)))

held_or_lost :
    (id agent : String) (now : ℕ) (r s : Row) (b : Store)
    → Unique b.rows
    → find id b.rows ≡ some s
    → Keeps (claim_row agent now r) s
    → (r.toxicity < s.toxicity)
      ⊎ ((s.claimed_by ≡ some agent)
          × ((up : Bool) (other : String) (later : ℕ)
              → (claim_task up b id other later).1 ≢ is_claimed true))
unfolding claim_row
held_or_lost id agent now r s b u f (inl l) = inl l
held_or_lost id agent now r s b u f (inr (e, g)) =
    let (m, o) = g (λ q. ground arith) in
    inr (o, λ up other later. claim_task-refuses up b id other later s u f m)

-- Once a claim of an agent has succeeded, and whatever is done afterwards but for the removal of
-- garbage: the task is still there, and either its toxicity has grown since, the count of the times
-- that it was taken back, or the agent still holds it and no claim of it succeeds.
pub claim_lasts :
    (past os : List (Bool × ℕ × Op)) (id agent : String) (up : Bool) (now : ℕ)
    → let b = run_ops new_board past in
      (claim_task up b.store id agent now).1 ≡ is_claimed true
      → All (λ (x : Bool × ℕ × Op). Allows false x.2) os
      → (r s : Row) × (find id b.store.rows ≡ some r)
        × (r.status ≡ pending)
        × (find id (run_ops (apply b (up, now, claim id agent)) os).store.rows ≡ some s)
        × ((r.toxicity < s.toxicity)
            ⊎ ((s.claimed_by ≡ some agent)
                × ((again : Bool) (other : String) (later : ℕ)
                    → (claim_task again
                        (run_ops (apply b (up, now, claim id agent)) os).store
                        id
                        other
                        later).1
                      ≢ is_claimed true)))
claim_lasts past os id agent up now e a =
    let b = run_ops new_board past in
    let b' = apply b (up, now, claim id agent) in
    let u = (run_ops-Follows true new_board past (any_Allows past) new_board-Unique).0 in
    let u' = (run_ops-Follows true b ((up, now, claim id agent) ∷ []) (tt, tt) u).0 in
    let (r, f, c) = claim_task-found up b.store id agent now u e in
    let w = claim_task-writes up b.store id agent now r e f c in
    let w' : find id b'.store.rows ≡ some (claim_row agent now r) = unfold apply act in w in
    let v : Unique b'.store.rows = unfold run_ops in u' in
    let kept =
      subst (λ o. KeptIn o (find id (run_ops b' os).store.rows)) w'
        (Change-KeptIn ((run_ops-Follows false b' os a v).1 id)) in
    let (s, q, k) = KeptIn-some (claim_row agent now r) (find id (run_ops b' os).store.rows) kept in
    let end = (run_ops-Follows true b' os (any_Allows os) v).0 in
    (
      r,
      s,
      f,
      can_claim-pending id r c,
      q,
      held_or_lost id agent now r s (run_ops b' os).store end q k,
    )
