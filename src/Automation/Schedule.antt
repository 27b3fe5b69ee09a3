-- ===== src/Automation/Schedule.antt =====
-- The reading of schedules: parseCronField and calcNextRun.
use polarisagi_harness.Prelude.{
  ℕ, zero, suc, ◌+◌, ◌-◌, ◌%◌, Bool, false, ◌&&◌, ◌||◌, Option, none, some, List, [], ◌∷◌, ◌==◌,
  if◌then◌else◌,
}
use polarisagi_harness.Text.{Bytes, same_bytes, trim, fields, ℤ, pos, negsuc, atoi}
use polarisagi_harness.Cron.{Clock, Calendar}

-- parseCronField: the step, and the fixed value or -1.
unfoldable pub step_or_all : Option ℤ → ℕ × ℤ
step_or_all none = (1, negsuc 0)
step_or_all (some (negsuc n)) = (1, negsuc 0)
step_or_all (some (pos zero)) = (1, negsuc 0)
step_or_all (some (pos (suc n))) = (suc n, negsuc 0)

unfoldable pub fixed_or_all : Option ℤ → ℕ × ℤ
fixed_or_all none = (1, negsuc 0)
fixed_or_all (some v) = (1, v)

-- The part after the prefix "*/", if it is there.
unfoldable pub after_star_slash : Bytes → Option Bytes
after_star_slash (a ∷ b ∷ rest) = if (a == b'*') && (b == b'/') then some rest else none
after_star_slash _ = none

unfoldable pub parse_unstarred : Bytes → Option Bytes → ℕ × ℤ
parse_unstarred part none = fixed_or_all (atoi part)
parse_unstarred part (some step) = step_or_all (atoi step)

unfoldable pub parse_cron_field : Bytes → ℕ × ℤ
parse_cron_field part =
    if same_bytes part (b'*' ∷ [])
    then (1, negsuc 0)
    else parse_unstarred part (after_star_slash part)

unfoldable pub field_matches : ℕ × ℤ → ℕ → Bool
field_matches (step, pos n) v = v == n
field_matches (step, negsuc zero) v = v % step == 0
field_matches (step, negsuc (suc n)) v = false

abbrev at_hourly : Bytes
at_hourly = b'@' ∷ b'h' ∷ b'o' ∷ b'u' ∷ b'r' ∷ b'l' ∷ b'y' ∷ []

abbrev at_daily : Bytes
at_daily = b'@' ∷ b'd' ∷ b'a' ∷ b'i' ∷ b'l' ∷ b'y' ∷ []

abbrev at_midnight : Bytes
at_midnight = b'@' ∷ b'm' ∷ b'i' ∷ b'd' ∷ b'n' ∷ b'i' ∷ b'g' ∷ b'h' ∷ b't' ∷ []

abbrev at_weekly : Bytes
at_weekly = b'@' ∷ b'w' ∷ b'e' ∷ b'e' ∷ b'k' ∷ b'l' ∷ b'y' ∷ []

abbrev at_monthly : Bytes
at_monthly = b'@' ∷ b'm' ∷ b'o' ∷ b'n' ∷ b't' ∷ b'h' ∷ b'l' ∷ b'y' ∷ []

abbrev star : Bytes
star = b'*' ∷ []

abbrev zero_text : Bytes
zero_text = b'0' ∷ []

abbrev one_text : Bytes
one_text = b'1' ∷ []

-- The fields of the expression that an alias stands for.
unfoldable pub parts_of : Bytes → List Bytes
parts_of expr =
    if same_bytes (trim expr) at_hourly
    then zero_text ∷ star ∷ star ∷ star ∷ star ∷ []
    else if same_bytes (trim expr) at_daily || same_bytes (trim expr) at_midnight
    then zero_text ∷ zero_text ∷ star ∷ star ∷ star ∷ []
    else if same_bytes (trim expr) at_weekly
    then zero_text ∷ zero_text ∷ star ∷ star ∷ zero_text ∷ []
    else if same_bytes (trim expr) at_monthly
    then zero_text ∷ zero_text ∷ one_text ∷ star ∷ star ∷ []
    else fields expr

-- `none` if there are not five fields, or six, of which the first is dropped.
unfoldable pub five_of : List Bytes → Option (List Bytes)
five_of (a ∷ b ∷ c ∷ d ∷ e ∷ []) = some (a ∷ b ∷ c ∷ d ∷ e ∷ [])
five_of (s ∷ a ∷ b ∷ c ∷ d ∷ e ∷ []) = some (a ∷ b ∷ c ∷ d ∷ e ∷ [])
five_of _ = none

unfoldable pub all_match : List Bytes → Clock → Bool
all_match (a ∷ b ∷ c ∷ d ∷ e ∷ []) t =
    field_matches (parse_cron_field a) t.minute
    && field_matches (parse_cron_field b) t.hour
    && field_matches (parse_cron_field c) t.day
    && field_matches (parse_cron_field d) t.month
    && field_matches (parse_cron_field e) t.weekday
all_match _ t = false

abbrev pub max_minutes : ℕ
max_minutes = 525600

unfoldable pub scan_minutes : ℕ → List Bytes → Calendar → ℕ → Option ℕ
scan_minutes zero parts cal t = none
scan_minutes (suc left) parts cal t =
    let later = scan_minutes left parts cal (t + 60) in
    if all_match parts (cal t) then some t else later

unfoldable pub scan_from : Option (List Bytes) → Calendar → ℕ → Option ℕ
scan_from none cal from = none
scan_from (some parts) cal from = scan_minutes max_minutes parts cal (from + 60 - (from + 60) % 60)

unfoldable pub calc_next_run : Calendar → Bytes → ℕ → Option ℕ
calc_next_run cal expr from = scan_from (five_of (parts_of expr)) cal from
