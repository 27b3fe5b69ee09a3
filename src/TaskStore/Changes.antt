-- ===== src/TaskStore/Changes.antt =====
-- Every operation of the board changes the row of an id in these ways only, and keeps the ids unique.
use polarisagi_harness.Prelude.{
  ℕ, ◌≡◌, refl, inl, inr, Bool, true, false, List, [], ◌∷◌, String, All, Bool-cases, arith, ◌==◌,
  if◌then◌else◌,
}
use polarisagi_harness.TaskStore.Stamp.{in_seconds}
use polarisagi_harness.TaskStore.Rows.{
  Row, pending, claimed, running, suspended, compensating, failed, is_active, rows_affected, find,
}
use polarisagi_harness.TaskStore.Table.{Unique, in_status_eq}
use polarisagi_harness.TaskStore.Handlers.{
  Store, set_status, set_lease, claim_row, stop_row, can_claim, can_start, can_end, owned_in,
  post_task, post_batch, claim_task, start_execution, complete_task, fail_task, renew_lease,
  suspend_for_hitl, resume_from_hitl, begin_compensation, end_compensation, stop_all,
  register_cancel_func, remove_cancel_func, is_running, default_lease_ttl,
}
use polarisagi_harness.TaskStore.Reaping.{reap_scan}
use polarisagi_harness.TaskStore.Change.{
  Updates, claims, starts, completes, fails, renews, suspends, approves, denies, begins, undoes,
  stops,
}
use polarisagi_harness.TaskStore.Board.{
  Board, Op, post, batch, register, claim, start, complete, fail, renew, begin_undo, end_undo,
  suspend, resume, stop, scan, collect, write, abandon, listen, leave, read, act, apply, run_ops,
  new_board,
}
use polarisagi_harness.TaskStore.Follows.{
  Follows, Follows-trans, announce-Follows, exec-Follows, insert-Follows, insert_all-Follows,
  phase2-Follows, reap_write-Follows, same, update_where-Follows,
}

can_start-Updates :
    (id agent : String) (now : ℕ) (r : Row)
    → can_start id agent r ≡ true
    → Updates r (set_status running now r)
can_start-Updates id agent now r t = starts now (in_status_eq claimed r (ground arith))

resume-Updates :
    (id agent : String) (ok : Bool) (now : ℕ) (r : Row)
    → owned_in suspended id agent r ≡ true
    → Updates r
        (set_lease (if ok then running else failed) now (in_seconds now default_lease_ttl) r)
resume-Updates id agent true now r t = approves now _ (in_status_eq suspended r (ground arith))
resume-Updates id agent false now r t = denies now _ (in_status_eq suspended r (ground arith))

-- Phase 2 of the reaper removes rows.
abbrev pub Allows : Bool → Op → Type 0
Allows gc collect = gc ≡ true
Allows gc _ = Unit

-- Every run is allowed when garbage may be removed.
Op-Allows : (o : Op) → Allows true o
Op-Allows (post t) = tt
Op-Allows (batch ts) = tt
Op-Allows (register id) = tt
Op-Allows (claim id agent) = tt
Op-Allows (start id agent) = tt
Op-Allows (complete id agent) = tt
Op-Allows (fail id agent) = tt
Op-Allows (renew id agent) = tt
Op-Allows (begin_undo id agent) = tt
Op-Allows (end_undo id agent) = tt
Op-Allows (suspend id agent timeout) = tt
Op-Allows (resume id agent ok) = tt
Op-Allows (stop reason) = tt
Op-Allows scan = tt
Op-Allows collect = refl
Op-Allows (write ups i) = tt
Op-Allows (abandon i) = tt
Op-Allows listen = tt
Op-Allows (leave i) = tt
Op-Allows (read i) = tt

pub any_Allows : (os : List (Bool × ℕ × Op)) → All (λ (x : Bool × ℕ × Op). Allows true x.2) os
any_Allows [] = tt
any_Allows ((up, now, o) ∷ os) = (Op-Allows o, any_Allows os)

module _ (gc : Bool) where
  claim_task-Follows :
      (up : Bool) (b : Store) (id agent : String) (now : ℕ)
      → Unique b.rows
      → Follows gc b.rows (claim_task up b id agent now).0.rows
  unfolding claim_task claim_row
  claim_task-Follows false b id agent now u = same gc b.rows u
  claim_task-Follows true b id agent now u =
      elim (Bool-cases (rows_affected (can_claim id) b.rows == 0)) [
        | inl z ↦ rw z (same gc b.rows u)
        | inr p ↦ rw p (
            update_where-Follows gc (can_claim id) (claim_row agent now) b.rows (λ r. refl)
              (λ r t. claims agent now (in_status_eq pending r (ground arith))) u)
      ]

  start_execution-Follows :
      (up : Bool) (b : Store) (id agent : String) (now : ℕ)
      → Unique b.rows
      → Follows gc b.rows (start_execution up b id agent now).0.rows
  unfolding start_execution
  start_execution-Follows false b id agent now u = same gc b.rows u
  start_execution-Follows true b id agent now u =
      elim (Bool-cases (rows_affected (can_start id agent) b.rows == 0)) [
        | inl z ↦ elim (Bool-cases (is_running (find id b.rows))) [
          | inl t ↦ rw (z, t) (same gc b.rows u)
          | inr f ↦ rw (z, f) (same gc b.rows u)
        ]
        | inr p ↦ rw p (
            update_where-Follows gc (can_start id agent) (set_status running now) b.rows (λ r. refl)
              (can_start-Updates id agent now) u)
      ]

  stop_all-Follows :
      (up : Bool) (b : Store) (reason : String) (now : ℕ)
      → Unique b.rows
      → Follows gc b.rows (stop_all up b reason now).0.rows
  unfolding stop_all stop_row
  stop_all-Follows false b reason now u = same gc b.rows u
  stop_all-Follows true b reason now u =
      update_where-Follows gc is_active (stop_row reason now) b.rows (λ r. refl)
        (λ r t. stops reason now t) u

  -- One operation, whatever it is and whether or not the database answers.
  pub act-Follows :
      (up : Bool) (now : ℕ) (b : Board) (o : Op)
      → Allows gc o
      → Unique b.store.rows
      → Follows gc b.store.rows (act up now b o).rows
  unfolding act post_task post_batch register_cancel_func complete_task fail_task renew_lease
      suspend_for_hitl resume_from_hitl begin_compensation end_compensation reap_scan
      remove_cancel_func
  act-Follows true now b (post t) h u = insert-Follows gc t now b.store.rows u
  act-Follows false now b (post t) h u = same gc b.store.rows u
  act-Follows true now b (batch ts) h u = insert_all-Follows gc ts now b.store.rows u
  act-Follows false now b (batch ts) h u = same gc b.store.rows u
  act-Follows up now b (register id) h u = same gc b.store.rows u
  act-Follows up now b (claim id agent) h u = claim_task-Follows up b.store id agent now u
  act-Follows up now b (start id agent) h u = start_execution-Follows up b.store id agent now u
  act-Follows up now b (complete id agent) h u = announce-Follows gc b.store.rows _ _ (
      exec-Follows gc up _ (can_end id agent) _ _ (λ r. refl) (λ r t. completes now (ground arith))
        u)
  act-Follows up now b (fail id agent) h u =
      announce-Follows gc b.store.rows _ _ (
        exec-Follows gc up _ (can_end id agent) _ _ (λ r. refl) (λ r t. fails now (ground arith)) u)
  act-Follows up now b (renew id agent) h u =
      exec-Follows gc up b.store (can_start id agent) _ _ (λ r. refl)
        (λ r t. renews now _ (in_status_eq claimed r (ground arith))) u
  act-Follows up now b (begin_undo id agent) h u =
      exec-Follows gc up b.store (owned_in running id agent) _ _ (λ r. refl)
        (λ r t. begins now _ (in_status_eq running r (ground arith))) u
  act-Follows up now b (end_undo id agent) h u =
      exec-Follows gc up b.store (owned_in compensating id agent) _ _ (λ r. refl)
        (λ r t. undoes now (in_status_eq compensating r (ground arith))) u
  act-Follows up now b (suspend id agent timeout) h u =
      exec-Follows gc up b.store (owned_in running id agent) _ _ (λ r. refl)
        (λ r t. suspends now _ (in_status_eq running r (ground arith))) u
  act-Follows up now b (resume id agent ok) h u =
      exec-Follows gc up b.store (owned_in suspended id agent) _ _ (λ r. refl)
        (resume-Updates id agent ok now) u
  act-Follows up now b (stop reason) h u = stop_all-Follows up b.store reason now u
  act-Follows true now b scan h u = same gc b.store.rows u
  act-Follows false now b scan h u = same gc b.store.rows u
  act-Follows up now b collect h u = phase2-Follows gc up b.store now h u
  act-Follows up now b (write ups i) h u = reap_write-Follows gc ups _ b.store now u
  act-Follows up now b (abandon i) h u = same gc b.store.rows u
  act-Follows up now b listen h u = same gc b.store.rows u
  act-Follows up now b (leave i) h u = same gc b.store.rows u
  act-Follows up now b (read i) h u = same gc b.store.rows u

  -- A run.
  pub run_ops-Follows :
      (b : Board) (os : List (Bool × ℕ × Op))
      → All (λ (x : Bool × ℕ × Op). Allows gc x.2) os
      → Unique b.store.rows
      → Follows gc b.store.rows (run_ops b os).store.rows
  unfolding run_ops apply
  run_ops-Follows b [] a u = same gc b.store.rows u
  run_ops-Follows b ((up, now, o) ∷ os) (h, a) u =
      let one = act-Follows up now b o h u in
      Follows-trans gc b.store.rows (act up now b o).rows _ one
        (run_ops-Follows (apply b (up, now, o)) os a one.0)

pub new_board-Unique : Unique new_board.store.rows
unfolding new_board
new_board-Unique = tt
