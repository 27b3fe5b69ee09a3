-- ===== src/TaskStore/Lease.antt =====
-- When a lease runs out: what the reaper's scan sees, and which calls can extend it.
use mathlib.Core.Path.{subst}
use polarisagi_harness.Prelude.{
  ℕ, ◌/◌, ◌≤◌, ◌≡◌, ◌≢◌, ap, ◌∙◌, inl, inr, Bool, true, false, ◌&&◌, Option, none, some, List, [],
  ◌∷◌, String, All, Bool-cases, Option-cases, arith, ltb, ◌==◌, str_eq_iff,
}
use polarisagi_harness.TaskStore.Stamp.{
  rfc3339, datetime, unix, separator, text_lt, second, sqlite_now,
}
use polarisagi_harness.TaskStore.Rows.{
  Row, running, row_status_index, has_id, is_active, rows_affected, find,
}
use polarisagi_harness.TaskStore.Table.{Unique, OnlyOf, affected-find, counted}
use polarisagi_harness.TaskStore.Handlers.{
  Store, returned, refused, stale_lease, exec, can_start, renew_lease, start_execution, is_running,
}
use polarisagi_harness.TaskStore.Reaping.{expires_before, is_expired, expired_rows, reap_scan}
use polarisagi_harness.TaskStore.Board.{Op, run_ops, new_board}
use polarisagi_harness.TaskStore.Changes.{run_ops-Follows, any_Allows, new_board-Unique}

-- The `T` of a lease's text comes after the space of SQLite's: only the days count.
text_lt-days : (t n : ℕ) → text_lt (rfc3339 t) (datetime n) ≡ ltb (t / 86400) (n / 86400)
unfolding text_lt unix separator
text_lt-days t n = ground arith

-- The scan takes a claimed or running task exactly from the first UTC midnight after the end of its
-- lease on, not from the end of its lease.
pub is_expired_days :
    (r : Row) (t now : ℕ)
    → r.expires_at ≡ some (rfc3339 t)
    → is_expired now r ≡ (is_active r && ltb (t / 86400) (now / second / 86400))
unfolding is_expired expires_before
is_expired_days r t now e =
    ap (λ o. is_active r && expires_before o (sqlite_now now)) e
    ∙ ap (λ c. is_active r && c) (text_lt-days t (now / second))

abbrev Misses : String → List (String × String) → Type 0
Misses id xs = All (λ (p : String × String). p.0 ≢ id) xs

expired_rows-other :
    (now : ℕ) (id : String) (rs : List Row)
    → All (λ (x : Row). x.task_id ≢ id) rs
    → Misses id (expired_rows now rs)
unfolding expired_rows
expired_rows-other now id [] a = tt
expired_rows-other now id (r ∷ rs) (n, a) =
    let rest = expired_rows-other now id rs a in
    elim (Bool-cases (is_expired now r)) [
      | inr f ↦ rw f rest
      | inl t ↦ elim (Option-cases r.claimed_by) [
        | inl q ↦ rw (t, q) rest
        | inr (agent, q) ↦ rw (t, q) (n, rest)
      ]
    ]

expired_rows-Misses :
    (now : ℕ) (id : String) (rs : List Row) (r : Row)
    → Unique rs
    → find id rs ≡ some r
    → is_expired now r ≡ false
    → Misses id (expired_rows now rs)
unfolding expired_rows find
expired_rows-Misses now id [] r u f e = tt
expired_rows-Misses now id (x ∷ rs) r (a, u) f e = elim (Bool-cases (has_id id x)) [
  | inl here ↦
      let q : x ≡ r = ground (arith, f, here) in
      let rest =
        expired_rows-other now id rs
          (subst (λ y. All (λ (z : Row). z.task_id ≢ y) rs) ((str_eq_iff x.task_id id).0 here) a) in
      rw (ap (is_expired now) q ∙ e) rest
  | inr other ↦
      let rest = expired_rows-Misses now id rs r u (rw other at f) e in
      let n : x.task_id ≢ id = λ z. ground (arith, z, other, str_eq_iff x.task_id id) in
      elim (Bool-cases (is_expired now x)) [
        | inr g ↦ rw g rest
        | inl t ↦ elim (Option-cases x.claimed_by) [
          | inl q ↦ rw (t, q) rest
          | inr (agent, q) ↦ rw (t, q) (n, rest)
        ]
      ]
]

-- In every state of a board, no scan of the reaper on or before the UTC day on which a task's lease
-- ends takes the task, also when the lease has run out.
pub lease_outlives :
    (os : List (Bool × ℕ × Op)) (id : String) (r : Row) (t now : ℕ) (up : Bool)
    → find id (run_ops new_board os).store.rows ≡ some r
    → r.expires_at ≡ some (rfc3339 t)
    → now / second / 86400 ≤ t / 86400
    → All (λ (p : String × String). p.0 ≢ id) (reap_scan up (run_ops new_board os).store now).1
unfolding reap_scan
lease_outlives os id r t now false f e h = tt
lease_outlives os id r t now true f e h =
    let u = (run_ops-Follows true new_board os (any_Allows os) new_board-Unique).0 in
    expired_rows-Misses now id (run_ops new_board os).store.rows r u f
      (is_expired_days r t now e ∙ ground (arith, h))

can_start-OnlyOf : (id agent : String) → OnlyOf id (can_start id agent)
can_start-OnlyOf id agent r e = ground (arith, str_eq_iff r.task_id id)

not_claimed-counted :
    (id agent : String) (o : Option Row) (r : Row)
    → o ≡ some r
    → r.status ≡ running
    → (counted (can_start id agent) o == 0) ≡ true
not_claimed-counted id agent none r e q = ground arith
not_claimed-counted id agent (some x) r e q = ground (arith, e, q, ap row_status_index q)

running-unaffected :
    (id agent : String) (b : Store) (r : Row)
    → Unique b.rows
    → find id b.rows ≡ some r
    → r.status ≡ running
    → (rows_affected (can_start id agent) b.rows == 0) ≡ true
running-unaffected id agent b r u f q =
    ap (λ n. n == 0) (affected-find (can_start id agent) id b.rows (can_start-OnlyOf id agent) u)
    ∙ not_claimed-counted id agent (find id b.rows) r f q

is_running-some : (o : Option Row) (r : Row) → o ≡ some r → r.status ≡ running → is_running o ≡ true
unfolding is_running
is_running-some none r e q = ground arith
is_running-some (some x) r e q = ground (arith, e, q)

-- A running task's lease cannot be renewed, not even by its owner.
pub renew_lease-running :
    (os : List (Bool × ℕ × Op)) (id agent : String) (r : Row) (now : ℕ)
    → let b = run_ops new_board os in
      find id b.store.rows ≡ some r
      → r.status ≡ running
      → renew_lease true b.store id agent now ≡ (b.store, refused stale_lease)
unfolding renew_lease exec
renew_lease-running os id agent r now f q =
    let b = run_ops new_board os in
    let u = (run_ops-Follows true new_board os (any_Allows os) new_board-Unique).0 in
    rw (running-unaffected id agent b.store r u f q)

-- StartExecution of a running task answers success to every agent, also to one that does not own it.
pub start_execution-running :
    (os : List (Bool × ℕ × Op)) (id agent : String) (r : Row) (now : ℕ)
    → let b = run_ops new_board os in
      find id b.store.rows ≡ some r
      → r.status ≡ running
      → (start_execution true b.store id agent now).1 ≡ returned
unfolding start_execution
start_execution-running os id agent r now f q =
    let b = run_ops new_board os in
    let u = (run_ops-Follows true new_board os (any_Allows os) new_board-Unique).0 in
    rw (running-unaffected id agent b.store r u f q, is_running-some (find id b.store.rows) r f q)
