-- ===== src/Automation/Ticks.antt =====
-- The ticks, and the start and end of a run.
use polarisagi_harness.Prelude.{
  ℕ, suc, Bool, true, not, ◌&&◌, Option, none, some, List, [], ◌∷◌, String, leb, str_eq,
  if◌then◌else◌,
}
use polarisagi_harness.Text.{same_bytes}
use polarisagi_harness.Cron.{Calendar}
use polarisagi_harness.Automation.Schedule.{calc_next_run}
use polarisagi_harness.Automation.Table.{
  RunStatus, running, is_running, Row, started, finished, Run, Server, Code, is_cron, find, modify,
}

-- The WHERE clause of cronTick.
unfoldable pub is_due_at : Option ℕ → ℕ → Bool
is_due_at none now = true
is_due_at (some t) now = leb t now

unfoldable pub is_due : ℕ → Row → Bool
is_due now a =
    a.enabled
    && is_cron a.trigger_type
    && not (same_bytes a.cron_schedule [])
    && is_due_at a.next_run_at now
    && not (is_running a.last_run_status)

-- The automations that a tick starts.
unfoldable pub cron_tick : ℕ → List Row → List Row
cron_tick now [] = []
cron_tick now (a ∷ rest) =
    let later = cron_tick now rest in if is_due now a then a ∷ later else later

abbrev pub begun : Calendar → ℕ → Row → Row → Row
begun cal now a x = record x {
  next_run_at = calc_next_run cal a.cron_schedule now;
  last_run_status = running;
}

-- executeAutomation, up to the start of its goroutine; `a` is the row as it was read. Errors of the
-- database are logged only.
unfoldable pub execute_automation : Calendar → Bool → Bool → Server → Row → String → ℕ → Server
execute_automation cal up up' s a run_id now = record {
  runs =
      if up
      then record { run_id = run_id; automation_id = a.id; state = started } ∷ s.runs
      else s.runs;
  automations = if up' then modify a.id (begun cal now a) s.automations else s.automations;
}

unfoldable pub end_run : String → RunStatus → List Run → List Run
end_run run_id status [] = []
end_run run_id status (r ∷ rest) =
    (if str_eq r.run_id run_id then record r { state = finished status } else r)
    ∷ end_run run_id status rest

abbrev pub counted : RunStatus → Row → Row
counted status a = record a { last_run_status = status; run_count = suc a.run_count }

-- The deferred function of the goroutine.
unfoldable pub finish_automation : Bool → Bool → Server → String → String → RunStatus → Server
finish_automation up up' s id run_id status = record {
  runs = if up then end_run run_id status s.runs else s.runs;
  automations = if up' then modify id (counted status) s.automations else s.automations;
}

-- POST trigger, on the row that was read. Its SELECT leaves the column cron_schedule out.
unfoldable pub trigger_found :
    Calendar → Bool → Bool → Server → Option Row → String → ℕ → Server × Code
trigger_found cal up up' s none run_id now = (s, 404)
trigger_found cal up up' s (some a) run_id now =
    if a.enabled
    then (execute_automation cal up up' s (record a { cron_schedule = [] }) run_id now, 202)
    else (s, 409)

unfoldable pub handle_trigger :
    Calendar → Bool → Bool → Server → String → String → ℕ → Server × Code
handle_trigger cal up up' s id run_id now =
    trigger_found cal up up' s (find id s.automations) run_id now
