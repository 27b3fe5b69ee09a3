-- ===== src/TaskStore/Stamp.antt =====
-- The two texts of a time in the table: time.RFC3339 of Go, and SQLite's datetime('now').
use polarisagi_harness.Prelude.{ℕ, ◌+◌, ◌*◌, ◌/◌, ◌%◌, Bool, true, false, ltb, if◌then◌else◌}

abbrev pub second : ℕ
second = 1_000_000_000

-- Both have the date, a separator and the time of day, in UTC; the number is the Unix time in seconds.
-- RFC 3339 reads 2006-01-02T15:04:05Z, SQLite's text 2006-01-02 15:04:05.
pub data Stamp : Type 0 where
  rfc3339 : ℕ → Stamp
  datetime : ℕ → Stamp

unfoldable pub unix : Stamp → ℕ
unix (rfc3339 t) = t
unix (datetime t) = t

unfoldable pub separator : Stamp → ℕ
separator (rfc3339 t) = b'T'
separator (datetime t) = b' '

-- SQLite's `<` on texts. The date and the time of day are digits of fixed width, so that their texts
-- are in the order of the days and of the seconds of the day.
unfoldable pub text_lt : Stamp → Stamp → Bool
text_lt a b =
    if ltb (unix a / 86400) (unix b / 86400)
    then true
    else if ltb (unix b / 86400) (unix a / 86400)
    then false
    else if ltb (separator a) (separator b)
    then true
    else if ltb (separator b) (separator a)
    then false
    else ltb (unix a % 86400) (unix b % 86400)

-- datetime('now')
abbrev pub sqlite_now : ℕ → Stamp
sqlite_now now = datetime (now / second)

-- time.Now().Add(...).UTC().Format(time.RFC3339)
abbrev pub in_seconds : ℕ → ℕ → Stamp
in_seconds now n = rfc3339 ((now + n * second) / second)
