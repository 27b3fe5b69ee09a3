-- ===== src/Cron/Tests.antt =====
-- Expressions and searches on a calendar whose minutes and hours are those of a day, and the theorems
-- at work on them.
use polarisagi_harness.Prelude.{
  ℕ, ◌+◌, ◌*◌, ◌/◌, ◌%◌, ◌≡◌, ◌⊎◌, ◌↔◌, refl, true, none, some, List, [], ◌∷◌, arith,
}
use polarisagi_harness.Text.{
  Bytes, pos, same_bytes, trim, trim_left, trim_right, is_blank, is_space, split, fields,
  fields_from, has, before, beyond, atoi, unsigned, digits_from, is_digit, in_range,
  in_range_negative,
}
use polarisagi_harness.Cron.{
  CronSchedule, ok, bad, add_int, leb_ℤ, note, add_range, positive, both, same_ends, ends, fill,
  parse_segment, parse_segments, not_empty, parse_cron_field, parse_five, parse_cron, Calendar,
  allows, member, matches, minute_ns, search_from, next_after, World,
}
use polarisagi_harness.Cron.Ranges.{IsHit, add_range_exact}
use polarisagi_harness.Cron.Bounds.{IsClockwise, parse_cron-IsClockwise}
use polarisagi_harness.Cron.Search.{IsNext, next_after-IsNext}
use polarisagi_harness.Cron.Caching.{Query, answers, evaluations, new_cache, cache_transparent}
use polarisagi_harness.Cron.Failures.{Report, failure, success}

-- "30,45-50/5 9 * * 1-5"
abbrev weekday_text : Bytes
weekday_text =
    b'3' ∷ b'0' ∷ b',' ∷ b'4' ∷ b'5' ∷ b'-' ∷ b'5' ∷ b'0' ∷ b'/' ∷ b'5' ∷ b' ' ∷ b'9' ∷ b' ' ∷ b'*'
    ∷ b' ' ∷ b'*' ∷ b' ' ∷ b'1' ∷ b'-' ∷ b'5' ∷ []

abbrev weekday_schedule : CronSchedule
weekday_schedule = record {
  minute = record { allowed = some (50 ∷ 45 ∷ 30 ∷ []) };
  hour = record { allowed = some (9 ∷ []) };
  day = record { allowed = none };
  month = record { allowed = none };
  weekday = record { allowed = some (5 ∷ 4 ∷ 3 ∷ 2 ∷ 1 ∷ []) };
}

weekday_parsed : parse_cron 10 weekday_text ≡ ok weekday_schedule
unfolding parse_cron parse_five fields fields_from parse_cron_field parse_segments parse_segment
    fill add_range ends both same_ends positive not_empty add_int leb_ℤ note same_bytes trim
    trim_left trim_right is_blank is_space split has before beyond atoi unsigned digits_from
    is_digit in_range in_range_negative
weekday_parsed = refl

four_fields_bad : parse_cron 10 (b'1' ∷ b' ' ∷ b'2' ∷ b' ' ∷ b'3' ∷ b' ' ∷ b'4' ∷ []) ≡ bad
unfolding parse_cron parse_five fields fields_from is_space
four_fields_bad = refl

-- The first of January for ever, a Thursday.
abbrev days : Calendar
days t = record {
  minute = t / minute_ns % 60;
  hour = t / minute_ns / 60 % 24;
  day = 1;
  month = 1;
  weekday = 4;
}

half_past_nine : next_after weekday_schedule days (9 * 60 * minute_ns + 7) ≡ some (570 * minute_ns)
unfolding next_after search_from matches allows member
half_past_nine = refl

next_after-IsNext_example : IsNext weekday_schedule days 7 (next_after weekday_schedule days 7)
next_after-IsNext_example = next_after-IsNext weekday_schedule days 7

parse_cron-IsClockwise_example : IsClockwise weekday_schedule
parse_cron-IsClockwise_example =
    parse_cron-IsClockwise 10 weekday_text weekday_schedule weekday_parsed

add_range_exact_example :
    (out : List ℕ) × (add_range 11 0 59 (pos 50) 5 (pos 45) [] ≡ ok out)
    × ((v : ℕ) → (member v out ≡ true) ↔ ((member v [] ≡ true) ⊎ IsHit 0 59 45 50 5 v))
add_range_exact_example =
    add_range_exact 10 0 59 45 50 5 [] (omega arith) (omega arith) (omega arith)

abbrev world : World
world = record { location = λ z. some days; schedule = λ e. ok weekday_schedule }

abbrev two_queries : List Query
two_queries =
    record { expr = "30,45-50/5 9 * * 1-5"; tz = ""; from = 7 }
    ∷ record { expr = "30,45-50/5 9 * * 1-5"; tz = "UTC"; from = 9 }
    ∷ []

cache_transparent_example : answers world new_cache two_queries ≡ evaluations world two_queries
cache_transparent_example = cache_transparent world two_queries (omega arith, (omega arith, tt))

abbrev four_failures : List Report
four_failures = failure "t" ∷ failure "t" ∷ success "u" ∷ failure "t" ∷ failure "t" ∷ []
