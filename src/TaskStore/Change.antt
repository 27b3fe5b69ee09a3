-- ===== src/TaskStore/Change.antt =====
-- The ways in which the row of one task can change.
use polarisagi_harness.Prelude.{ℕ, ◌≡◌, Bool, true, Option, none, some, String}
use polarisagi_harness.TaskStore.Stamp.{Stamp}
use polarisagi_harness.TaskStore.Rows.{
  Row, pending, claimed, running, suspended, compensating, done, failed, is_active,
}
use polarisagi_harness.TaskStore.Handlers.{
  TaskEntry, new_row, set_status, set_lease, claim_row, stop_row,
}
use polarisagi_harness.TaskStore.Reaping.{reap_row, is_garbage}

-- One UPDATE, with what its WHERE clause says of the status.
pub data Updates (r : Row) : Row → Type 0 where
  claims : (agent : String) (now : ℕ) → r.status ≡ pending → Updates r (claim_row agent now r)
  starts : (now : ℕ) → r.status ≡ claimed → Updates r (set_status running now r)
  completes : (now : ℕ) → is_active r ≡ true → Updates r (set_status done now r)
  fails : (now : ℕ) → is_active r ≡ true → Updates r (set_status failed now r)
  renews : (now : ℕ) (t : Stamp) → r.status ≡ claimed → Updates r (set_lease claimed now t r)
  suspends : (now : ℕ) (t : Stamp) → r.status ≡ running → Updates r (set_lease suspended now t r)
  approves : (now : ℕ) (t : Stamp) → r.status ≡ suspended → Updates r (set_lease running now t r)
  denies : (now : ℕ) (t : Stamp) → r.status ≡ suspended → Updates r (set_lease failed now t r)
  begins : (now : ℕ) (t : Stamp) → r.status ≡ running → Updates r (set_lease compensating now t r)
  undoes : (now : ℕ) → r.status ≡ compensating → Updates r (set_status failed now r)
  stops : (reason : String) (now : ℕ) → is_active r ≡ true → Updates r (stop_row reason now r)
  reaps : (now : ℕ) → is_active r ≡ true → Updates r (reap_row now r)

-- Changes, with removals of garbage only if `gc`.
pub data Change (gc : Bool) : Option Row → Option Row → Type 0 where
  stays : {o : Option Row} → Change gc o o
  creates : (t : TaskEntry) (now : ℕ) → Change gc none (some (new_row t now))
  updates : {r s : Row} → Updates r s → Change gc (some r) (some s)
  removes : {r : Row} (now : ℕ) → gc ≡ true → is_garbage now r ≡ true → Change gc (some r) none
  after : {a b c : Option Row} → Change gc a b → Change gc b c → Change gc a c
