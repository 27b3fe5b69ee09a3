-- ===== src/Cron/Failures.antt =====
-- When the runner disables a task.
use polarisagi_harness.Prelude.{
  ℕ, suc, ◌≡◌, refl, ap, List, [], ◌∷◌, String, leb, str_eq, str_eq_iff, update_lem, arith,
  if◌then◌else◌,
}
use polarisagi_harness.Cron.{CronRunner, new_cron_runner, report_error, report_success}

pub data Report : Type 0 where
  failure success : String → Report

-- The reports, latest first, from the start of the runner on.
pub after_reports : List Report → CronRunner
after_reports [] = new_cron_runner
after_reports (failure id ∷ rs) = (report_error (after_reports rs) id).0
after_reports (success id ∷ rs) = report_success (after_reports rs) id

-- How often a task has failed since its last success.
unfoldable pub failures_in_a_row : String → List Report → ℕ
failures_in_a_row id [] = 0
failures_in_a_row id (failure x ∷ rs) =
    let n = failures_in_a_row id rs in if str_eq x id then suc n else n
failures_in_a_row id (success x ∷ rs) =
    let n = failures_in_a_row id rs in if str_eq x id then 0 else n

after_reports_errors :
    (id : String) (rs : List Report) → (after_reports rs).errors id ≡ failures_in_a_row id rs
unfolding after_reports failures_in_a_row new_cron_runner report_error report_success
after_reports_errors id [] = refl
after_reports_errors id (failure x ∷ rs) = ground (
  arith,
  update_lem (after_reports rs).errors x (suc ((after_reports rs).errors x)) id,
  after_reports_errors id rs,
  str_eq_iff x id,
  ap (after_reports rs).errors,
)
after_reports_errors id (success x ∷ rs) =
    ground (arith, update_lem (after_reports rs).errors x 0 id, after_reports_errors id rs)

after_reports_threshold : (rs : List Report) → (after_reports rs).error_threshold ≡ 5
unfolding after_reports new_cron_runner report_error report_success
after_reports_threshold [] = refl
after_reports_threshold (failure x ∷ rs) = after_reports_threshold rs
after_reports_threshold (success x ∷ rs) = after_reports_threshold rs

-- ReportError says that a task is to be disabled exactly from its fifth failure in a row on, whatever
-- was reported of other tasks in between.
pub report_error_exact :
    (rs : List Report) (id : String)
    → (report_error (after_reports rs) id).1 ≡ leb 5 (failures_in_a_row id (failure id ∷ rs))
unfolding report_error failures_in_a_row
report_error_exact rs id =
    ground (arith, after_reports_errors id rs, after_reports_threshold rs, str_eq_iff id id)
