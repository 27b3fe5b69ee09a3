-- ===== src/Cron.antt =====
-- pkg/edge/scheduler/cron.go: cron expressions of five fields, the search of the next time, its cache,
-- and the count of failures. Times are nanoseconds from the start of the Unix epoch, at which a minute
-- starts. The calendar of a time zone is a parameter.
pub mod Ranges
pub mod Bounds
pub mod Search
pub mod Caching
pub mod Failures
mod Tests
use polarisagi_harness.Prelude.{
  ℕ, zero, suc, ◌+◌, ◌-◌, ◌*◌, ◌/◌, ◌%◌, ◌^◌, Bool, true, false, not, ◌&&◌, ◌||◌, Option, none,
  some, List, [], ◌∷◌, ◌++◌, String, length, ltb, leb, ◌==◌, str_eq, update, if◌then◌else◌,
}
use polarisagi_harness.Text.{
  Bytes, same_bytes, trim, split, fields, has, before, beyond, ℤ, pos, negsuc, atoi,
}

-- `allowed`; none is nil, which allows all.
pub record CronField : Type 0 where
  pub allowed : Option (List ℕ)

pub record CronSchedule : Type 0 where
  pub minute : CronField
  pub hour : CronField
  pub day : CronField
  pub month : CronField
  pub weekday : CronField

-- A result, the error, or a loop that is not over when the fuel is.
pub data Parsed {ℓ} (A : Type ℓ) : Type ℓ where
  ok : A → Parsed A
  bad : Parsed A
  hangs : Parsed A

abbrev pub max_int : ℕ
max_int = 2 ^ 63 - 1

-- `v += step` on an int, which wraps around.
unfoldable pub add_int : ℤ → ℕ → ℤ
add_int (pos a) step =
    if ltb (a + step) (2 ^ 63) then pos (a + step) else negsuc (2 ^ 64 - (a + step) - 1)
add_int (negsuc a) step = if leb step a then negsuc (a - step) else pos (step - a - 1)

unfoldable pub leb_ℤ : ℤ → ℤ → Bool
leb_ℤ (pos a) (pos b) = leb a b
leb_ℤ (pos a) (negsuc b) = false
leb_ℤ (negsuc a) (pos b) = true
leb_ℤ (negsuc a) (negsuc b) = leb b a

-- `if v >= min && v <= max { allowed[v] = true }`
unfoldable pub note : ℕ → ℕ → ℤ → List ℕ → List ℕ
note min max (negsuc a) allowed = allowed
note min max (pos a) allowed = if leb min a && leb a max then a ∷ allowed else allowed

-- `for v := lo; v <= hi; v += step`
unfoldable pub add_range : ℕ → ℕ → ℕ → ℤ → ℕ → ℤ → List ℕ → Parsed (List ℕ)
add_range zero min max hi step v allowed = hangs
add_range (suc fuel) min max hi step v allowed =
    let rest = add_range fuel min max hi step (add_int v step) (note min max v allowed) in
    if leb_ℤ v hi then rest else ok allowed

unfoldable pub positive : Option ℤ → Option ℕ
positive none = none
positive (some (negsuc n)) = none
positive (some (pos zero)) = none
positive (some (pos (suc n))) = some (suc n)

unfoldable pub both : Option ℤ → Option ℤ → Option (ℤ × ℤ)
both none b = none
both (some a) none = none
both (some a) (some b) = some (a, b)

unfoldable pub same_ends : Option ℤ → Option (ℤ × ℤ)
same_ends none = none
same_ends (some v) = some (v, v)

-- lo and hi of a segment without its step.
unfoldable pub ends : ℕ → ℕ → Bytes → Option (ℤ × ℤ)
ends min max seg =
    if same_bytes seg (b'*' ∷ [])
    then some (pos min, pos max)
    else if has b'-' seg
    then both (atoi (trim (before b'-' seg))) (atoi (trim (beyond b'-' seg)))
    else same_ends (atoi seg)

unfoldable pub fill : ℕ → ℕ → ℕ → Option ℕ → Option (ℤ × ℤ) → List ℕ → Parsed (List ℕ)
fill fuel min max none lohi allowed = bad
fill fuel min max (some step) none allowed = bad
fill fuel min max (some step) (some (lo, hi)) allowed = add_range fuel min max hi step lo allowed

unfoldable pub parse_segment : ℕ → ℕ → ℕ → Bytes → List ℕ → Parsed (List ℕ)
parse_segment fuel min max seg allowed =
    if same_bytes seg []
    then ok allowed
    else if has b'/' seg
    then fill fuel min max (positive (atoi (trim (beyond b'/' seg))))
        (ends min max (trim (before b'/' seg))) allowed
    else fill fuel min max (some 1) (ends min max seg) allowed

abbrev pub then_parse {ℓ κ} : {A : Type ℓ} {B : Type κ} → Parsed A → (A → Parsed B) → Parsed B
then_parse (ok a) f = f a
then_parse bad f = bad
then_parse hangs f = hangs

unfoldable pub parse_segments : ℕ → ℕ → ℕ → List Bytes → List ℕ → Parsed (List ℕ)
parse_segments fuel min max [] allowed = ok allowed
parse_segments fuel min max (seg ∷ segs) allowed =
    then_parse (parse_segment fuel min max (trim seg) allowed)
      (λ a. parse_segments fuel min max segs a)

unfoldable pub not_empty : List ℕ → Parsed CronField
not_empty [] = bad
not_empty (v ∷ vs) = ok (record { allowed = some (v ∷ vs) })

-- parseCronField
unfoldable pub parse_cron_field : ℕ → Bytes → ℕ → ℕ → Parsed CronField
parse_cron_field fuel s min max =
    if same_bytes s (b'*' ∷ [])
    then ok (record { allowed = none })
    else then_parse (parse_segments fuel min max (split b',' s) []) not_empty

unfoldable pub parse_five : ℕ → List Bytes → Parsed CronSchedule
parse_five fuel (a ∷ b ∷ c ∷ d ∷ e ∷ []) = then_parse (parse_cron_field fuel a 0 59) λ minute.
    then_parse (parse_cron_field fuel b 0 23) λ hour.
      then_parse (parse_cron_field fuel c 1 31) λ day.
        then_parse (parse_cron_field fuel d 1 12) λ month.
          then_parse (parse_cron_field fuel e 0 6) λ weekday.
            ok
              (record { minute = minute; hour = hour; day = day; month = month; weekday = weekday })
parse_five fuel _ = bad

unfoldable pub parse_cron : ℕ → Bytes → Parsed CronSchedule
parse_cron fuel expr = parse_five fuel (fields expr)

-- What a time is in a time zone.
pub record Clock : Type 0 where
  pub minute : ℕ
  pub hour : ℕ
  pub day : ℕ
  pub month : ℕ
  pub weekday : ℕ

abbrev pub Calendar : Type 0
Calendar = ℕ → Clock

unfoldable pub member : ℕ → List ℕ → Bool
member v [] = false
member v (x ∷ xs) = if x == v then true else member v xs

unfoldable pub allows : Option (List ℕ) → ℕ → Bool
allows none v = true
allows (some vs) v = member v vs

unfoldable pub matches : CronSchedule → Clock → Bool
matches cs t =
    allows cs.minute.allowed t.minute
    && allows cs.hour.allowed t.hour
    && allows cs.day.allowed t.day
    && allows cs.month.allowed t.month
    && allows cs.weekday.allowed t.weekday

abbrev pub minute_ns : ℕ
minute_ns = 60_000_000_000

abbrev pub max_cron_lookahead : ℕ
max_cron_lookahead = 366 * 24 * 60

unfoldable pub search_from : ℕ → CronSchedule → Calendar → ℕ → Option ℕ
search_from zero cs cal t = none
search_from (suc left) cs cal t =
    let later = search_from left cs cal (t + minute_ns) in
    if matches cs (cal t) then some t else later

-- `none` is the zero time.
unfoldable pub next_after : CronSchedule → Calendar → ℕ → Option ℕ
next_after cs cal from = search_from max_cron_lookahead cs cal (from - from % minute_ns + minute_ns)

-- CronEvalCache. The key is the time zone and the expression; the value, none for the zero time.
pub record CronEvalCache : Type 0 where
  pub items : String → String → Option (Option ℕ)

pub data Next : Type 0 where
  at : Option ℕ → Next
  bad_timezone bad_expr no_answer : Next

unfoldable pub set_item : CronEvalCache → String → String → Option ℕ → CronEvalCache
set_item c tz expr next = record {
  items = λ z e. if str_eq tz z && str_eq expr e then some next else c.items z e;
}

unfoldable pub is_after : Option (Option ℕ) → ℕ → Bool
is_after (some (some t)) from = ltb from t
is_after _ from = false

unfoldable pub item_of : Option (Option ℕ) → Option ℕ
item_of none = none
item_of (some o) = o

-- The zones that LoadLocation knows, and ParseCron on the texts in use.
pub record World : Type 0 where
  pub location : String → Option Calendar
  pub schedule : String → Parsed CronSchedule

unfoldable pub evaluate : Parsed CronSchedule → Option Calendar → ℕ → Next
evaluate p none from = bad_timezone
evaluate (ok cs) (some cal) from = at (next_after cs cal from)
evaluate bad (some cal) from = bad_expr
evaluate hangs (some cal) from = no_answer

abbrev pub zone : String → String
zone tz = if str_eq tz "" then "UTC" else tz

unfoldable pub remember : CronEvalCache → String → String → Next → CronEvalCache
remember c tz expr (at next) = set_item c tz expr next
remember c tz expr other = c

unfoldable pub next_run : World → CronEvalCache → String → String → ℕ → CronEvalCache × Next
next_run w c expr tz from =
    let k = zone tz in
    if is_after (c.items k expr) from
    then (c, at (item_of (c.items k expr)))
    else let r = evaluate (w.schedule expr) (w.location k) from in (remember c k expr r, r)

-- CronRunner
pub record CronRunner : Type 0 where
  pub error_threshold : ℕ
  pub errors : String → ℕ

unfoldable pub new_cron_runner : CronRunner
new_cron_runner = record { error_threshold = 5; errors = λ id. 0 }

unfoldable pub report_error : CronRunner → String → CronRunner × Bool
report_error cr id =
    let count = suc (cr.errors id) in
    (record cr { errors = update cr.errors id count }, leb cr.error_threshold count)

unfoldable pub report_success : CronRunner → String → CronRunner
report_success cr id = record cr { errors = update cr.errors id 0 }

-- The draw is below the bound by its remainder.
unfoldable pub stagger_delay : ℕ → ℕ → ℕ
stagger_delay stagger_ms draw = if stagger_ms == 0 then 0 else draw % stagger_ms * 1_000_000

-- `now` and `later` are the two clock readings.
unfoldable pub disabled : Option ℕ → ℕ → ℕ → Bool
disabled none now later = false
disabled (some t) now later = ltb t now || t == later
