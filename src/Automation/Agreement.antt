-- ===== src/Automation/Agreement.antt =====
-- The two readings of a cron field, of the gateway and of the scheduler, compared.
use native.Mathlib.Nat.{mul-mod_left, div-add-mod', zero-mod, mod-eq_of_lt}
use polarisagi_harness.Prelude.{
  ℕ, suc, ◌+◌, ◌/◌, ◌%◌, ◌^◌, ◌≤◌, ◌<◌, ◌≡◌, ◌⊎◌, refl, sym, ap, ◌∙◌, inl, inr, Bool, true, false,
  none, some, [], ◌∷◌, Bool-cases, arith, ◌==◌, ==_iff,
}
use polarisagi_harness.Text.{Bytes, same_bytes, pos, atoi, is_digit}
use polarisagi_harness.Text.Digits.{
  AreDigits, AreDigits-IsSolid, trim-IsSolid, has-AreDigits, same_bytes-star,
}
use polarisagi_harness.Cron.{
  CronField, Parsed, ok, bad, hangs, allows, member, add_range, positive, ends, fill, same_ends,
  parse_segment, parse_segments, then_parse, not_empty,
}
use polarisagi_harness.Cron
use polarisagi_harness.Cron.Ranges.{IsHit, add_range_exact}
use polarisagi_harness.Automation.Schedule.{
  parse_cron_field, parse_unstarred, after_star_slash, fixed_or_all, field_matches,
}
use polarisagi_harness.Automation.Reading.{
  segment_every, one_segment, segment_value, field_of, gateway_every, gateway_value, comma,
  starred-plain, starred-has, starred-trim,
}

-- A field that both read alike: its step is not 0, its number is in the range of the field.
pub data Shared (max : ℕ) : Bytes → Type 0 where
  wildcard : Shared max (b'*' ∷ [])
  every :
      (ds : Bytes) (n : ℕ)
      → AreDigits ds
      → atoi ds ≡ some (pos (suc n))
      → max + suc n < 2 ^ 63
      → Shared max (b'*' ∷ b'/' ∷ ds)
  value :
      (ds : Bytes) (n : ℕ)
      → AreDigits ds
      → atoi ds ≡ some (pos n)
      → n ≤ max
      → n + 1 < 2 ^ 63
      → Shared max ds

same_test : (a b : Bool) → (a ≡ true → b ≡ true) → (b ≡ true → a ≡ true) → a ≡ b
same_test true b f g = sym (f refl)
same_test false true f g = g refl
same_test false false f g = refl

-- A multiple, by its remainder.
IsHit-of-mod : (max step v : ℕ) → v ≤ max → v % step ≡ 0 → IsHit 0 max 0 max step v
IsHit-of-mod max step v h e = (v / step, omega (arith, div-add-mod' v step, e), h, omega arith, h)

mod-of-IsHit : (max step v : ℕ) → IsHit 0 max 0 max step v → v % step ≡ 0
mod-of-IsHit max step v (k, q, l, a, b) =
    ap (λ (x : ℕ). x % step) (omega (arith, q)) ∙ mul-mod_left k step

abbrev Agrees : ℕ → ℕ → Bytes → Type 0
Agrees fuel max s =
    (f : CronField) × (Cron.parse_cron_field (suc fuel) s 0 max ≡ ok f)
    × ((v : ℕ) → v ≤ max → allows f.allowed v ≡ field_matches (parse_cron_field s) v)

only_hit : (v : ℕ) (X : Type 0) → (member v [] ≡ true) ⊎ X → X
unfolding member
only_hit v X (inl e) = cc
only_hit v X (inr x) = x

Agrees-every :
    (fuel max : ℕ) (ds : Bytes) (n : ℕ)
    → max < fuel
    → AreDigits ds
    → atoi ds ≡ some (pos (suc n))
    → max + suc n < 2 ^ 63
    → Agrees fuel max (b'*' ∷ b'/' ∷ ds)
unfolding allows
Agrees-every fuel max ds n h a e l =
    let (out, q, m) =
      add_range_exact fuel 0 max 0 max (suc n) [] (omega arith) l (omega (arith, h)) in
    let zeroth = (m 0).1 (inr (IsHit-of-mod max (suc n) 0 (omega arith) (zero-mod (suc n)))) in
    let (f, p, r) = field_of _ out 0 (segment_every (suc fuel) 0 max ds n a e ∙ q) zeroth in
    (
      f,
      one_segment (suc fuel) 0 max (b'*' ∷ b'/' ∷ ds) (starred-plain ds) (starred-has ds a)
            (starred-trim ds a)
          ∙ p,
      λ v w.
          ap (λ x. allows x v) r
          ∙ same_test (member v out) (v % suc n == 0)
              (λ t.
                (==_iff (v % suc n) 0).1 (mod-of-IsHit max (suc n) v (only_hit v _ ((m v).0 t))))
              (λ t. (m v).1 (inr (IsHit-of-mod max (suc n) v w ((==_iff (v % suc n) 0).0 t))))
          ∙ sym (gateway_every ds n v e),
    )

Agrees-value :
    (fuel max : ℕ) (ds : Bytes) (n : ℕ)
    → max < fuel
    → AreDigits ds
    → atoi ds ≡ some (pos n)
    → n ≤ max
    → n + 1 < 2 ^ 63
    → Agrees fuel max ds
unfolding allows
Agrees-value fuel max ds n h a e b l =
    let (out, q, m) = add_range_exact fuel 0 max n n 1 [] (omega arith) l (omega (arith, h)) in
    let itself = (m n).1 (inr (0, omega arith, omega arith, omega arith, b)) in
    let (f, p, r) = field_of _ out n (segment_value (suc fuel) 0 max ds n a e ∙ q) itself in
    (
      f,
      one_segment (suc fuel) 0 max ds (same_bytes-star ds a)
            (has-AreDigits comma ds (unfold is_digit in refl) a)
            (trim-IsSolid ds (AreDigits-IsSolid ds a))
          ∙ p,
      λ v w.
          ap (λ x. allows x v) r
          ∙ same_test (member v out) (v == n)
              (λ t.
                let (k, at_k, low, u, o) = only_hit v _ ((m v).0 t) in
                (==_iff v n).1 (omega (arith, at_k, low)))
              (λ t. (m v).1 (inr (0, ground (arith, t), ground (arith, t), omega arith, w)))
          ∙ sym (gateway_value ds n v a e),
    )

Agrees-wildcard : (fuel max : ℕ) → Agrees fuel max (b'*' ∷ [])
unfolding Cron.parse_cron_field same_bytes allows parse_cron_field field_matches
Agrees-wildcard fuel max =
    (record { allowed = none }, refl, λ v w. sym ((==_iff (v % 1) 0).1 (omega arith)))

-- A field that counts from 0 (the minute, the hour, the day of the week) and is "*", or "*/n" with n
-- from 1 on and max + n below 2 ^ 63, or a number of at most max, the last value of the field: the
-- scheduler's parser accepts it and allows exactly the values that the gateway's own reading matches.
pub field_agrees :
    (fuel max : ℕ) (s : Bytes)
    → max < fuel
    → Shared max s
    → (f : CronField) × (Cron.parse_cron_field (suc fuel) s 0 max ≡ ok f)
      × ((v : ℕ) → v ≤ max → allows f.allowed v ≡ field_matches (parse_cron_field s) v)
field_agrees fuel max _ h wildcard = Agrees-wildcard fuel max
field_agrees fuel max _ h (every ds n a e l) = Agrees-every fuel max ds n h a e l
field_agrees fuel max s h (value ds n a e b l) = Agrees-value fuel max s n h a e b l

-- In a field that counts from 1 the two differ: "*/n" with n from 2 on allows the first day or month
-- for the scheduler, and not for the gateway.
pub step_differs :
    (fuel max : ℕ) (ds : Bytes) (n : ℕ)
    → max < fuel
    → 1 ≤ max
    → AreDigits ds
    → atoi ds ≡ some (pos (suc (suc n)))
    → max + suc (suc n) < 2 ^ 63
    → ((f : CronField) × (Cron.parse_cron_field (suc fuel) (b'*' ∷ b'/' ∷ ds) 1 max ≡ ok f)
        × (allows f.allowed 1 ≡ true))
      × (field_matches (parse_cron_field (b'*' ∷ b'/' ∷ ds)) 1 ≡ false)
step_differs fuel max ds n h b a e l =
    let (out, q, m) =
      add_range_exact fuel 1 max 1 max (suc (suc n)) [] (omega arith) l (omega (arith, h)) in
    let first = (m 1).1 (inr (0, omega arith, b, omega arith, b)) in
    let (f, p, r) = field_of _ out 1 (segment_every (suc fuel) 1 max ds (suc n) a e ∙ q) first in
    (
      (
        f,
        one_segment (suc fuel) 1 max (b'*' ∷ b'/' ∷ ds) (starred-plain ds) (starred-has ds a)
              (starred-trim ds a)
            ∙ p,
        ap (λ x. allows x 1) r ∙ (unfold allows in first),
      ),
      gateway_every ds (suc n) 1 e
          ∙ ground (arith, mod-eq_of_lt {n = 1} {m = suc (suc n)} (omega arith)),
    )

-- Whatever the gateway cannot read, such as a list or a range, it takes for the wildcard.
pub unread_is_wildcard :
    (s : Bytes) (v : ℕ)
    → after_star_slash s ≡ none
    → atoi s ≡ none
    → field_matches (parse_cron_field s) v ≡ true
unfolding parse_cron_field parse_unstarred fixed_or_all field_matches
unread_is_wildcard s v n e = elim (Bool-cases (same_bytes s (b'*' ∷ []))) [
  | inl t ↦ rw t ((==_iff (v % 1) 0).1 (omega arith))
  | inr f ↦ rw (f, n, e) ((==_iff (v % 1) 0).1 (omega arith))
]
