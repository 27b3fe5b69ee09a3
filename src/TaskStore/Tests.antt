-- ===== src/TaskStore/Tests.antt =====
-- Tasks on a board, from their posting on, and the theorems at work on them.
use polarisagi_harness.Prelude.{
  ℕ, ◌*◌, ◌≤◌, ◌<◌, ◌≡◌, ◌≢◌, ◌⊎◌, refl, Bool, true, none, some, List, [], ◌∷◌, ◌++◌, String, All,
  arith,
}
use polarisagi_harness.TaskStore.Stamp.{Stamp, rfc3339, datetime, unix, second, separator, text_lt}
use polarisagi_harness.TaskStore.Rows.{
  Row, pending, running, failed, names, find, insert_or_ignore, update_where, rows_affected,
}
use polarisagi_harness.TaskStore.Handlers.{
  is_claimed, returned, refused, task_not_owned, TaskEntry, new_row, post_task, claim_task,
  claim_row, start_execution, complete_task, fail_task, exec, announce, remove_cancel_func,
  side_effect_pre_check, check_row, check_lease,
}
use polarisagi_harness.TaskStore.Reaping.{
  reap_scan, reap_write, reap_row, expired_rows, is_expired, expires_before, cancel_all,
}
use polarisagi_harness.TaskStore.Board.{
  Op, post, claim, start, fail, scan, write, act, apply, run_ops, wait_for, next_grace, new_board,
}
use polarisagi_harness.TaskStore.Fence.{precheck_unchanged}
use polarisagi_harness.TaskStore.Toxicity.{toxicity_bounded}
use polarisagi_harness.TaskStore.Owner.{claim_lasts}
use polarisagi_harness.TaskStore.Lease.{lease_outlives}

abbrev task : TaskEntry
task = record { id = "t"; kind = "s"; priority = 1 }

abbrev Call : Type 0
Call = Bool × ℕ × Op

abbrev at_second : ℕ → Op → Call
at_second n o = (true, n * second, o)

abbrev posting : List Call
posting = at_second 0 (post task) ∷ []

-- Posted, claimed at 10 s and started at 20 s.
abbrev working : List Call
working = at_second 0 (post task) ∷ at_second 10 (claim "t" "a") ∷ at_second 20 (start "t" "a") ∷ []

abbrev working_row : Row
working_row = record {
  task_id = "t";
  session_id = "s";
  priority = 1;
  status = running;
  claimed_by = some "a";
  expires_at = some (rfc3339 70);
  version = 2;
  toxicity = 0;
  suspend_reason = none;
  updated_at = datetime 20;
}

working_found : find "t" (run_ops new_board working).store.rows ≡ some working_row
unfolding run_ops apply act post_task insert_or_ignore new_row claim_task claim_row start_execution
    update_where rows_affected find new_board
working_found = refl

-- The reaper at work two days later: the task is pending again, and the agent's answer is refused.
abbrev lost : List Call
lost = at_second 172800 scan ∷ at_second 172805 (write (λ id. true) 0) ∷ []

late_answer_refused :
    (complete_task true
      (run_ops (run_ops new_board working) lost).store
      "t"
      "a"
      (172806 * second)).1
    ≡ refused task_not_owned
unfolding run_ops apply act post_task insert_or_ignore new_row claim_task claim_row start_execution
    update_where rows_affected find new_board next_grace wait_for reap_scan reap_write reap_row
    expired_rows is_expired expires_before text_lt unix separator complete_task exec announce
    remove_cancel_func cancel_all
late_answer_refused = refl

precheck_passes :
    side_effect_pre_check true
      (run_ops (run_ops new_board working) (at_second 30 (post task) ∷ [])).store
      "t"
      "a"
      2
      (40 * second)
    ≡ returned
unfolding run_ops apply act post_task insert_or_ignore new_row claim_task claim_row start_execution
    update_where rows_affected find new_board side_effect_pre_check check_row check_lease unix
precheck_passes = refl

precheck_unchanged_example :
    (find "t" (run_ops (run_ops new_board working) (at_second 30 (post task) ∷ [])).store.rows
      ≡ some working_row)
    × (working_row.status ≡ running)
    × (names working_row.claimed_by "a" ≡ true)
    × (t : Stamp) × (working_row.expires_at ≡ some t)
    × (40 * second ≤ unix t * second)
precheck_unchanged_example =
    precheck_unchanged working (at_second 30 (post task) ∷ []) "t" "a" working_row true
      (40 * second) working_found (tt, tt) precheck_passes

-- The working task is reported as failed and claimed by another, in vain.
abbrev failing : List Call
failing = working ++ at_second 30 (fail "t" "a") ∷ []

abbrev failed_row : Row
failed_row = record working_row { status = failed; version = 3; updated_at = datetime 30 }

failing_found : find "t" (run_ops new_board failing).store.rows ≡ some failed_row
unfolding run_ops apply act post_task insert_or_ignore new_row claim_task claim_row start_execution
    update_where rows_affected find new_board fail_task exec announce remove_cancel_func
failing_found = refl

toxicity_bounded_example :
    let later = (run_ops (run_ops new_board failing) (at_second 40 (claim "t" "b") ∷ [])).store in
    (failed_row.toxicity ≤ 3)
    × (((failed_row.status ≢ failed) × (failed_row.toxicity ≤ 2))
        ⊎ ((failed_row.status ≡ failed)
            × (find "t" later.rows ≡ some failed_row)
            × ((up : Bool) (agent : String) (now : ℕ)
                → (claim_task up later "t" agent now).1 ≢ is_claimed true)))
toxicity_bounded_example =
    toxicity_bounded failing (at_second 40 (claim "t" "b") ∷ []) "t" failed_row failing_found
      (tt, tt)

claim_says_yes :
    (claim_task true (run_ops new_board posting).store "t" "a" (10 * second)).1 ≡ is_claimed true
unfolding run_ops apply act post_task insert_or_ignore new_row claim_task rows_affected new_board
claim_says_yes = refl

claim_lasts_example :
    (r s : Row) × (find "t" (run_ops new_board posting).store.rows ≡ some r)
    × (r.status ≡ pending)
    × (find "t"
          (run_ops
            (apply (run_ops new_board posting) (at_second 10 (claim "t" "a")))
            (at_second 20 (start "t" "a") ∷ [])).store.rows
        ≡ some s)
    × ((r.toxicity < s.toxicity)
        ⊎ ((s.claimed_by ≡ some "a")
            × ((again : Bool) (other : String) (later : ℕ)
                → (claim_task again
                    (run_ops
                      (apply (run_ops new_board posting) (at_second 10 (claim "t" "a")))
                      (at_second 20 (start "t" "a") ∷ [])).store
                    "t"
                    other
                    later).1
                  ≢ is_claimed true)))
claim_lasts_example =
    claim_lasts posting (at_second 20 (start "t" "a") ∷ []) "t" "a" true (10 * second)
      claim_says_yes (tt, tt)

lease_outlives_example :
    All
      (λ (p : String × String). p.0 ≢ "t")
      (reap_scan true (run_ops new_board working).store (86399 * second)).1
lease_outlives_example =
    lease_outlives working "t" working_row 70 (86399 * second) true working_found refl (omega arith)
