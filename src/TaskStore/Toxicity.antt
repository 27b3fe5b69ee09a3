-- ===== src/TaskStore/Toxicity.antt =====
-- The count of the times that a task was taken back, after which it fails for good.
use mathlib.Core.Path.{subst}
use mathlib.Core.Option.{some-injective}
use polarisagi_harness.Prelude.{
  ℕ, suc, ◌+◌, ◌≤◌, ◌≡◌, ◌≢◌, refl, ap, ◌∙◌, All, Bool, true, false, Option, none, some, List,
  String, leb, arith, ◌⊎◌, Bool-cases, inl, inr,
}
use polarisagi_harness.TaskStore.Rows.{
  Row, RowStatus, pending, claimed, running, suspended, compensating, done, failed, find, is_active,
  row_status_index,
}
use polarisagi_harness.TaskStore.Handlers.{claim_row, stop_row, new_row, claim_task, is_claimed}
use polarisagi_harness.TaskStore.Reaping.{reap_row}
use polarisagi_harness.TaskStore.Change.{
  Updates, claims, starts, completes, fails, renews, suspends, approves, denies, begins, undoes,
  stops, reaps, Change, stays, creates, updates, removes, after,
}
use polarisagi_harness.TaskStore.Table.{Unique}
use polarisagi_harness.TaskStore.Owner.{claim_task-refuses}
use polarisagi_harness.TaskStore.Board.{Board, Op, run_ops, new_board}
use polarisagi_harness.TaskStore.Changes.{Allows, run_ops-Follows, any_Allows, new_board-Unique}

pub record IsSound (r : Row) : Type 0 where
  pub at_most : r.toxicity ≤ 3
  pub living : r.status ≢ failed → r.toxicity ≤ 2

active-ne-failed : (r : Row) → is_active r ≡ true → r.status ≢ failed
active-ne-failed r e q = ground (arith, e, ap row_status_index q)

-- No UPDATE changes a task that has failed.
Updates-ne-failed : {r s : Row} → Updates r s → r.status ≢ failed
Updates-ne-failed (claims agent now e) q = ground (arith, e, q)
Updates-ne-failed (starts now e) q = ground (arith, e, q)
Updates-ne-failed {r} (completes now e) q = active-ne-failed r e q
Updates-ne-failed {r} (fails now e) q = active-ne-failed r e q
Updates-ne-failed (renews now t e) q = ground (arith, e, q)
Updates-ne-failed (suspends now t e) q = ground (arith, e, q)
Updates-ne-failed (approves now t e) q = ground (arith, e, q)
Updates-ne-failed (denies now t e) q = ground (arith, e, q)
Updates-ne-failed (begins now t e) q = ground (arith, e, q)
Updates-ne-failed (undoes now e) q = ground (arith, e, q)
Updates-ne-failed {r} (stops reason now e) q = active-ne-failed r e q
Updates-ne-failed {r} (reaps now e) q = active-ne-failed r e q

-- The third time that a task is taken back makes the status `failed`; nothing else changes the count.
Updates-toxicity :
    {r s : Row}
    → Updates r s
    → (s.toxicity ≡ r.toxicity)
      ⊎ ((s.toxicity ≡ suc r.toxicity) × (s.status ≢ failed → s.toxicity ≤ 2))
unfolding claim_row stop_row reap_row
Updates-toxicity (claims agent now e) = inl refl
Updates-toxicity (starts now e) = inl refl
Updates-toxicity (completes now e) = inl refl
Updates-toxicity (fails now e) = inl refl
Updates-toxicity (renews now t e) = inl refl
Updates-toxicity (suspends now t e) = inl refl
Updates-toxicity (approves now t e) = inl refl
Updates-toxicity (denies now t e) = inl refl
Updates-toxicity (begins now t e) = inl refl
Updates-toxicity (undoes now e) = inl refl
Updates-toxicity (stops reason now e) = inl refl
Updates-toxicity {r} (reaps now e) = inr (
  refl,
  λ n. elim (Bool-cases (leb 3 (r.toxicity + 1))) [
    | inl t ↦ absurd (n (rw t))
    | inr f ↦ ground (arith, f)
  ],
)

Updates-IsSound : {r s : Row} → Updates r s → IsSound r → IsSound s
Updates-IsSound {r} {s} u v =
    let low = v.living (Updates-ne-failed u) in
    elim (Updates-toxicity u) [
      | inl e ↦ record { at_most = omega (arith, e, low); living = λ n. omega (arith, e, low) }
      | inr (e, l) ↦ record { at_most = omega (arith, e, low); living = l }
    ]

abbrev AllSound : Option Row → Type 0
AllSound none = Unit
AllSound (some r) = IsSound r

Change-AllSound : {gc : Bool} {o p : Option Row} → Change gc o p → AllSound o → AllSound p
unfolding new_row
Change-AllSound stays v = v
Change-AllSound (creates t now) v = record { at_most = omega arith; living = λ n. omega arith }
Change-AllSound (updates u) v = Updates-IsSound u v
Change-AllSound (removes now e g) v = tt
Change-AllSound (after x y) v = Change-AllSound y (Change-AllSound x v)

-- Nothing but the removal of garbage changes the row of a failed task.
Change-failed :
    {o p : Option Row} (r : Row) → Change false o p → o ≡ some r → r.status ≡ failed → p ≡ some r
Change-failed r stays e f = e
Change-failed r (creates t now) e f = ground (arith, e)
Change-failed r (updates {r = x} u) e f =
    absurd (Updates-ne-failed u (ap (λ (y : Row). y.status) (some-injective x r e) ∙ f))
Change-failed r (removes now g h) e f = ground (arith, g)
Change-failed r (after x y) e f = Change-failed r y (Change-failed r x e f) f

failed-stays :
    (b : Board) (more : List (Bool × ℕ × Op)) (id : String) (r : Row)
    → Unique b.store.rows
    → All (λ (x : Bool × ℕ × Op). Allows false x.2) more
    → find id b.store.rows ≡ some r
    → r.status ≡ failed
    → (find id (run_ops b more).store.rows ≡ some r)
      × ((up : Bool) (agent : String) (now : ℕ)
          → (claim_task up (run_ops b more).store id agent now).1 ≢ is_claimed true)
failed-stays b more id r u a e f =
    let (w, c) = run_ops-Follows false b more a u in
    let q = Change-failed r (c id) e f in
    (
      q,
      λ up agent now.
          claim_task-refuses up (run_ops b more).store id agent now r w q
            (λ p. ground (arith, p, f)),
    )

failed-cases : (s : RowStatus) → (s ≡ failed) ⊎ (s ≢ failed)
failed-cases pending = inr (λ e. ground (arith, ap row_status_index e))
failed-cases claimed = inr (λ e. ground (arith, ap row_status_index e))
failed-cases running = inr (λ e. ground (arith, ap row_status_index e))
failed-cases suspended = inr (λ e. ground (arith, ap row_status_index e))
failed-cases compensating = inr (λ e. ground (arith, ap row_status_index e))
failed-cases done = inr (λ e. ground (arith, ap row_status_index e))
failed-cases failed = inl refl

-- In every state of a board a task's toxicity, the count of the times that it was taken back, is at
-- most three, and at most two unless it has failed. And if it has failed, then, whatever is done
-- afterwards but for the removal of garbage, its row stays as it is and no claim of it succeeds.
pub toxicity_bounded :
    (os more : List (Bool × ℕ × Op)) (id : String) (r : Row)
    → find id (run_ops new_board os).store.rows ≡ some r
    → All (λ (x : Bool × ℕ × Op). Allows false x.2) more
    → let later = (run_ops (run_ops new_board os) more).store in
      (r.toxicity ≤ 3)
      × (((r.status ≢ failed) × (r.toxicity ≤ 2))
          ⊎ ((r.status ≡ failed)
              × (find id later.rows ≡ some r)
              × ((up : Bool) (agent : String) (now : ℕ)
                  → (claim_task up later id agent now).1 ≢ is_claimed true)))
toxicity_bounded os more id r e a =
    let (u, c) = run_ops-Follows true new_board os (any_Allows os) new_board-Unique in
    let v : IsSound r = subst AllSound e (Change-AllSound (c id) (unfold find new_board in tt)) in
    (
      v.at_most,
      elim (failed-cases r.status) [
        | inr n ↦ inl (n, v.living n)
        | inl f ↦
            let (q, c) = failed-stays (run_ops new_board os) more id r u a e f in inr (f, q, c)
      ],
    )
