-- ===== src/Automation/Tests.antt =====
-- Fields, expressions and automations of the gateway, and the theorems at work on them.
use polarisagi_harness.Prelude.{
  ℕ, ◌/◌, ◌%◌, ◌≤◌, ◌≡◌, refl, true, Option, none, some, [], ◌∷◌, arith,
}
use polarisagi_harness.Text.{
  Bytes, same_bytes, trim, trim_left, trim_right, is_blank, is_space, fields, fields_from, atoi,
  unsigned, digits_from, is_digit, in_range,
}
use polarisagi_harness.Cron.{CronField, ok, allows, Calendar}
use polarisagi_harness.Cron
use polarisagi_harness.Automation.Schedule.{
  parse_cron_field, parse_unstarred, after_star_slash, fixed_or_all, field_matches, parts_of,
  five_of, all_match, scan_minutes, scan_from, calc_next_run,
}
use polarisagi_harness.Automation.Table.{
  succeeded, never, Row, Server, find, CreateRequest, handle_create, next_of,
}
use polarisagi_harness.Automation.Ticks.{
  is_due, execute_automation, finish_automation, handle_trigger,
}
use polarisagi_harness.Automation.Agreement.{every, field_agrees}
use polarisagi_harness.Automation.Runs.{unreadable_always_due, trigger_loses_schedule}

-- A day of 24 hours, for ever.
abbrev days : Calendar
days t = record { minute = t / 60 % 60; hour = t / 3600 % 24; day = 1; month = 1; weekday = 4 }

abbrev daily : Bytes
daily = b'@' ∷ b'd' ∷ b'a' ∷ b'i' ∷ b'l' ∷ b'y' ∷ []

daily_at_midnight : calc_next_run days daily 90_000 ≡ some 172_800
unfolding calc_next_run scan_from scan_minutes all_match five_of parts_of parse_cron_field
    parse_unstarred after_star_slash fixed_or_all field_matches same_bytes trim trim_left trim_right
    is_blank is_space atoi unsigned digits_from is_digit in_range
daily_at_midnight = refl

-- "*/15"
field_agrees_example :
    (f : CronField) × (Cron.parse_cron_field 61 (b'*' ∷ b'/' ∷ b'1' ∷ b'5' ∷ []) 0 59 ≡ ok f)
    × ((v : ℕ)
        → v ≤ 59
        → allows f.allowed v ≡ field_matches (parse_cron_field (b'*' ∷ b'/' ∷ b'1' ∷ b'5' ∷ [])) v)
unfolding atoi unsigned digits_from is_digit in_range
field_agrees_example =
    field_agrees 60 59 (b'*' ∷ b'/' ∷ b'1' ∷ b'5' ∷ []) (omega arith)
      (every (b'1' ∷ b'5' ∷ []) 14 (refl, (refl, tt)) refl (omega arith))

abbrev request : Bytes → CreateRequest
request schedule = record {
  prompt = b'x' ∷ [];
  trigger_type = "";
  cron_schedule = schedule;
  enabled = none;
}

abbrev automation : Bytes → Option ℕ → Row
automation schedule next = record {
  id = "a";
  prompt = b'x' ∷ [];
  trigger_type = "cron";
  cron_schedule = schedule;
  enabled = true;
  next_run_at = next;
  last_run_status = never;
  run_count = 0;
}

abbrev server : Bytes → Option ℕ → Server
server schedule next = record { automations = automation schedule next ∷ []; runs = [] }

-- The schedule "x" is accepted.
nonsense_created :
    handle_create days true (record { automations = []; runs = [] }) "a" (request (b'x' ∷ [])) 0
    ≡ (server (b'x' ∷ []) none, 201)
unfolding handle_create next_of calc_next_run scan_from five_of parts_of fields fields_from
    same_bytes trim trim_left trim_right is_blank is_space
nonsense_created = refl

unreadable_always_due_example :
    (y : Row) × (find "a"
        (finish_automation true true
          (execute_automation days true true
            (server (b'x' ∷ []) none)
            (automation (b'x' ∷ []) none)
            "r"
            60)
          "a"
          "r"
          succeeded).automations
      ≡ some y)
    × (is_due 61 y ≡ true)
unfolding find same_bytes five_of parts_of fields fields_from trim trim_left trim_right is_blank
    is_space
unreadable_always_due_example =
    unreadable_always_due days (server (b'x' ∷ []) none) (automation (b'x' ∷ []) none) "r" 60 61
      succeeded refl (refl, refl, refl) refl refl

trigger_loses_schedule_example :
    (y : Row) × (find "a"
        (finish_automation true true
          (handle_trigger days true true (server daily (some 86_400)) "a" "r" 60).0
          "a"
          "r"
          succeeded).automations
      ≡ some y)
    × (y.cron_schedule ≡ daily)
    × (is_due 61 y ≡ true)
unfolding find same_bytes
trigger_loses_schedule_example =
    trigger_loses_schedule days (server daily (some 86_400)) (automation daily (some 86_400)) "r" 60
      61 succeeded refl (refl, refl, refl) refl
