-- ===== src/TaskStore/Reaping.antt =====
-- reap, in its two parts before and after the 5 s of grace, and the second phase of the Reaper.
use polarisagi_harness.Prelude.{
  ℕ, suc, ◌+◌, ◌-◌, ◌/◌, Bool, false, ◌&&◌, ◌||◌, Option, none, some, List, [], ◌∷◌, String, leb,
  update, if◌then◌else◌,
}
use polarisagi_harness.TaskStore.Stamp.{Stamp, datetime, second, text_lt, sqlite_now}
use polarisagi_harness.TaskStore.Channels.{task_lease_expired, broadcast}
use polarisagi_harness.TaskStore.Rows.{
  Row, pending, failed, done, in_status, has_id, is_active, update_where, delete_where,
}
use polarisagi_harness.TaskStore.Handlers.{Store, event, touched}

-- NULL is less than nothing.
unfoldable pub expires_before : Option Stamp → Stamp → Bool
expires_before none t = false
expires_before (some e) t = text_lt e t

unfoldable pub is_expired : ℕ → Row → Bool
is_expired now r = is_active r && expires_before r.expires_at (sqlite_now now)

-- A row whose claimed_by is NULL cannot be scanned and is passed over.
abbrev scanned : String → Option String → List (String × String) → List (String × String)
scanned id none rest = rest
scanned id (some agent) rest = (id, agent) ∷ rest

unfoldable pub expired_rows : ℕ → List Row → List (String × String)
expired_rows now [] = []
expired_rows now (r ∷ rs) =
    let rest = expired_rows now rs in
    if is_expired now r then scanned r.task_id r.claimed_by rest else rest

-- The cancel functions of the expired tasks are called, once each.
unfoldable pub cancel_all : List (String × String) → (String → Bool) → String → Bool
cancel_all [] cancels = cancels
cancel_all ((id, agent) ∷ rest) cancels = cancel_all rest (update cancels id false)

unfoldable pub reap_scan : Bool → Store → ℕ → Store × List (String × String)
reap_scan up b now =
    if up
    then (
      record b { cancels = cancel_all (expired_rows now b.rows) b.cancels },
      expired_rows now b.rows,
    )
    else (b, [])

abbrev pub can_reap : String → Row → Bool
can_reap id r = has_id id r && is_active r

-- The third lease that runs out makes the task fail.
unfoldable pub reap_row : ℕ → Row → Row
reap_row now r = record (touched r now) {
  status = if leb 3 (r.toxicity + 1) then failed else pending;
  claimed_by = none;
  expires_at = none;
  toxicity = suc r.toxicity;
}

-- `up` says of which tasks the database takes the update: an error is ignored, and the event is sent in
-- any case.
unfoldable pub reap_write : (String → Bool) → Store → List (String × String) → ℕ → Store
reap_write up b [] now = b
reap_write up b ((id, agent) ∷ rest) now =
    let rows' = update_where (can_reap id) (reap_row now) b.rows in
    reap_write up
      (record b {
        rows = if up id then rows' else b.rows;
        subscribers = broadcast (event task_lease_expired id agent) b.subscribers;
      })
      rest now

-- updated_at < datetime('now', '-5 minute')
unfoldable pub is_garbage : ℕ → Row → Bool
is_garbage now r =
    (in_status done r || in_status failed r) && text_lt r.updated_at (datetime (now / second - 300))

-- Reaper.Phase2
unfoldable pub phase2 : Bool → Store → ℕ → Store
phase2 up b now = if up then record b { rows = delete_where (is_garbage now) b.rows } else b
