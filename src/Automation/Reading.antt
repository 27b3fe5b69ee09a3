-- ===== src/Automation/Reading.antt =====
-- How the scheduler and the gateway read the fields "*/n" and n.
use polarisagi_harness.Prelude.{
  ℕ, suc, ◌%◌, ◌≡◌, refl, ap, ◌∙◌, true, false, none, some, List, [], ◌∷◌, arith, ◌==◌,
}
use polarisagi_harness.Text.{
  Bytes, same_bytes, trim, trim_left, trim_right, is_blank, has, before, beyond, pos, atoi,
  is_space, is_digit,
}
use polarisagi_harness.Text.Digits.{
  AreDigits, AreDigits-IsSolid, trim-IsSolid, split-one, has-AreDigits, same_bytes-star,
}
use polarisagi_harness.Cron.{
  CronField, Parsed, ok, bad, hangs, allows, member, add_range, positive, ends, fill, same_ends,
  parse_segment, parse_segments, then_parse, not_empty,
}
use polarisagi_harness.Cron
use polarisagi_harness.Automation.Schedule.{
  parse_cron_field, parse_unstarred, after_star_slash, step_or_all, fixed_or_all, field_matches,
}

-- How the scheduler reads "*/n".
pub segment_every :
    (fuel min max : ℕ) (ds : Bytes) (n : ℕ)
    → AreDigits ds
    → atoi ds ≡ some (pos (suc n))
    → parse_segment fuel min max (b'*' ∷ b'/' ∷ ds) []
      ≡ add_range fuel min max (pos max) (suc n) (pos min) []
unfolding parse_segment fill ends positive same_bytes has before beyond trim trim_left trim_right
    is_blank is_space
segment_every fuel min max ds n a e =
    ap (λ x. fill fuel min max (positive (atoi x)) (some (pos min, pos max)) [])
      (trim-IsSolid ds (AreDigits-IsSolid ds a))
    ∙ ap (λ x. fill fuel min max (positive x) (some (pos min, pos max)) []) e

abbrev pub comma : ℕ
comma = b','

-- A field of one segment.
pub one_segment :
    (fuel min max : ℕ) (s : Bytes)
    → same_bytes s (b'*' ∷ []) ≡ false
    → has comma s ≡ false
    → trim s ≡ s
    → Cron.parse_cron_field fuel s min max
      ≡ then_parse (then_parse (parse_segment fuel min max s []) (λ a. ok a)) not_empty
unfolding Cron.parse_cron_field parse_segments
one_segment fuel min max s n h t = rw n (
    ap (λ x. then_parse (parse_segments fuel min max x []) not_empty) (split-one comma s h)
    ∙ ap (λ x. then_parse (then_parse (parse_segment fuel min max x []) (λ a. ok a)) not_empty) t)

pub star_not_digit : (c : ℕ) → is_digit c ≡ true → (c == b'*') ≡ false
unfolding is_digit
star_not_digit c e = ground arith

pub atoi_nil : atoi [] ≡ none
unfolding atoi
atoi_nil = refl

-- How the scheduler reads a number.
pub segment_value :
    (fuel min max : ℕ) (ds : Bytes) (n : ℕ)
    → AreDigits ds
    → atoi ds ≡ some (pos n)
    → parse_segment fuel min max ds [] ≡ add_range fuel min max (pos n) 1 (pos n) []
unfolding parse_segment fill ends same_ends same_bytes
segment_value fuel min max [] n a e = absurd (ground (arith, e, atoi_nil))
segment_value fuel min max (c ∷ cs) n a e = rw (
  has-AreDigits b'/' (c ∷ cs) (unfold is_digit in refl) a,
  same_bytes-star (c ∷ cs) a,
  has-AreDigits b'-' (c ∷ cs) (unfold is_digit in refl) a,
  e,
)

-- The field that the loop's list makes, where a value is in the list.
pub field_of :
    (m : Parsed (List ℕ)) (out : List ℕ) (v : ℕ)
    → m ≡ ok out
    → member v out ≡ true
    → (f : CronField) × (then_parse (then_parse m (λ a. ok a)) not_empty ≡ ok f)
      × (f.allowed ≡ some out)
unfolding not_empty member
field_of m [] v e h = ground arith
field_of m (x ∷ xs) v e h = (
  record { allowed = some (x ∷ xs) },
  ap (λ y. then_parse (then_parse y (λ a. ok a)) not_empty) e,
  refl,
)

-- How the gateway reads the two forms.
pub gateway_every :
    (ds : Bytes) (n v : ℕ)
    → atoi ds ≡ some (pos (suc n))
    → field_matches (parse_cron_field (b'*' ∷ b'/' ∷ ds)) v ≡ (v % suc n == 0)
unfolding parse_cron_field parse_unstarred after_star_slash step_or_all same_bytes field_matches
gateway_every ds n v e = ap (λ x. field_matches (step_or_all x) v) e

pub digits-unstarred : (ds : Bytes) → AreDigits ds → after_star_slash ds ≡ none
unfolding after_star_slash
digits-unstarred [] a = refl
digits-unstarred (c ∷ []) a = refl
digits-unstarred (c ∷ d ∷ ds) (x, a) =
    let n : (c == b'*') ≡ false = ground (arith, x, star_not_digit c) in rw n

pub gateway_value :
    (ds : Bytes) (n v : ℕ)
    → AreDigits ds
    → atoi ds ≡ some (pos n)
    → field_matches (parse_cron_field ds) v ≡ (v == n)
unfolding parse_cron_field parse_unstarred fixed_or_all field_matches
gateway_value ds n v a e = rw (same_bytes-star ds a) (
    ap (λ x. field_matches (parse_unstarred ds x) v) (digits-unstarred ds a)
    ∙ ap (λ x. field_matches (fixed_or_all x) v) e)

pub starred-plain : (ds : Bytes) → same_bytes (b'*' ∷ b'/' ∷ ds) (b'*' ∷ []) ≡ false
unfolding same_bytes
starred-plain ds = refl

pub starred-has : (ds : Bytes) → AreDigits ds → has comma (b'*' ∷ b'/' ∷ ds) ≡ false
unfolding has
starred-has ds a = has-AreDigits comma ds (unfold is_digit in refl) a

pub starred-trim : (ds : Bytes) → AreDigits ds → trim (b'*' ∷ b'/' ∷ ds) ≡ b'*' ∷ b'/' ∷ ds
starred-trim ds a =
    trim-IsSolid (b'*' ∷ b'/' ∷ ds)
      (unfold is_space in refl, (unfold is_space in refl, AreDigits-IsSolid ds a))
