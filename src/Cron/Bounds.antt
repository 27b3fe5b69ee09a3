-- ===== src/Cron/Bounds.antt =====
-- What a parsed schedule allows: at least one value for each field, and only values that a clock shows.
use mathlib.Core.Path.{subst}
use polarisagi_harness.Prelude.{
  ℕ, zero, suc, ◌≤◌, ◌<◌, ◌≡◌, inl, inr, ◌&&◌, Option, none, some, List, [], ◌∷◌, length, All,
  Bool-cases, arith, leb,
}
use polarisagi_harness.Text.{Bytes, ℤ, pos, negsuc, same_bytes, has, trim, split, fields}
use polarisagi_harness.Cron.{
  CronField, CronSchedule, Parsed, ok, bad, hangs, add_int, leb_ℤ, note, add_range, fill,
  parse_segment, parse_segments, then_parse, not_empty, parse_cron_field, parse_five, parse_cron,
}

abbrev pub Within : ℕ → ℕ → List ℕ → Type 0
Within min max vs = All (λ (v : ℕ). (min ≤ v) × (v ≤ max)) vs

-- The result of a parser that succeeds satisfies P.
abbrev Yields {ℓ κ} : {A : Type ℓ} → (A → Type κ) → Parsed A → Type κ
Yields P (ok a) = P a
Yields P bad = Unit
Yields P hangs = Unit

Yields-then {ℓ κ ν μ} :
    {A : Type ℓ} {B : Type κ} (P : A → Type ν) (Q : B → Type μ) (m : Parsed A) (f : A → Parsed B)
    → Yields P m
    → ((a : A) → P a → Yields Q (f a))
    → Yields Q (then_parse m f)
Yields-then P Q (ok a) f h g = g a h
Yields-then P Q bad f h g = tt
Yields-then P Q hangs f h g = tt

module _ (min max : ℕ) where
  note-Within : (v : ℤ) (acc : List ℕ) → Within min max acc → Within min max (note min max v acc)
  unfolding note
  note-Within (negsuc a) acc w = w
  note-Within (pos a) acc w = elim (Bool-cases (leb min a && leb a max)) [
    | inl t ↦ rw t ((ground (arith, t), ground (arith, t)), w)
    | inr n ↦ rw n w
  ]

  add_range-Within :
      (fuel step : ℕ) (hi v : ℤ) (acc : List ℕ)
      → Within min max acc
      → Yields (Within min max) (add_range fuel min max hi step v acc)
  unfolding add_range
  add_range-Within zero step hi v acc w = tt
  add_range-Within (suc fuel) step hi v acc w = elim (Bool-cases (leb_ℤ v hi)) [
    | inl t ↦
        rw t (
          add_range-Within fuel step hi (add_int v step) (note min max v acc) (note-Within v acc w))
    | inr n ↦ rw n w
  ]

  fill-Within :
      (fuel : ℕ) (step : Option ℕ) (lohi : Option (ℤ × ℤ)) (acc : List ℕ)
      → Within min max acc
      → Yields (Within min max) (fill fuel min max step lohi acc)
  unfolding fill
  fill-Within fuel none lohi acc w = tt
  fill-Within fuel (some step) none acc w = tt
  fill-Within fuel (some step) (some (lo, hi)) acc w = add_range-Within fuel step hi lo acc w

  parse_segment-Within :
      (fuel : ℕ) (seg : Bytes) (acc : List ℕ)
      → Within min max acc
      → Yields (Within min max) (parse_segment fuel min max seg acc)
  unfolding parse_segment
  parse_segment-Within fuel seg acc w = elim (Bool-cases (same_bytes seg [])) [
    | inl t ↦ rw t w
    | inr n ↦ elim (Bool-cases (has b'/' seg)) [
      | inl t ↦ rw (n, t) (fill-Within fuel _ _ acc w)
      | inr m ↦ rw (n, m) (fill-Within fuel _ _ acc w)
    ]
  ]

  parse_segments-Within :
      (fuel : ℕ) (segs : List Bytes) (acc : List ℕ)
      → Within min max acc
      → Yields (Within min max) (parse_segments fuel min max segs acc)
  unfolding parse_segments
  parse_segments-Within fuel [] acc w = w
  parse_segments-Within fuel (seg ∷ segs) acc w =
      Yields-then (Within min max) (Within min max) _ _ (parse_segment-Within fuel (trim seg) acc w)
        (λ a v. parse_segments-Within fuel segs a v)

  abbrev pub IsProperSet : Option (List ℕ) → Type 0
  IsProperSet none = Unit
  IsProperSet (some vs) = (0 < length vs) × Within min max vs

  -- A field allows all values, or some, each within the bounds.
  abbrev pub IsProper : CronField → Type 0
  IsProper f = IsProperSet f.allowed

  not_empty-IsProper : (vs : List ℕ) → Within min max vs → Yields IsProper (not_empty vs)
  unfolding not_empty
  not_empty-IsProper [] w = tt
  not_empty-IsProper (v ∷ vs) w = (omega arith, w)

  parse_cron_field-IsProper :
      (fuel : ℕ) (s : Bytes) → Yields IsProper (parse_cron_field fuel s min max)
  unfolding parse_cron_field
  parse_cron_field-IsProper fuel s = elim (Bool-cases (same_bytes s (b'*' ∷ []))) [
    | inl t ↦ rw t tt
    | inr n ↦ rw n (
        Yields-then (Within min max) IsProper _ not_empty
          (parse_segments-Within fuel (split b',' s) [] tt) not_empty-IsProper)
  ]

abbrev pub IsClockwise : CronSchedule → Type 0
IsClockwise cs =
    IsProper 0 59 cs.minute
    × IsProper 0 23 cs.hour
    × IsProper 1 31 cs.day
    × IsProper 1 12 cs.month
    × IsProper 0 6 cs.weekday

parse_five-IsClockwise :
    (fuel : ℕ) (parts : List Bytes) → Yields IsClockwise (parse_five fuel parts)
unfolding parse_five
parse_five-IsClockwise fuel [] = tt
parse_five-IsClockwise fuel (a ∷ []) = tt
parse_five-IsClockwise fuel (a ∷ b ∷ []) = tt
parse_five-IsClockwise fuel (a ∷ b ∷ c ∷ []) = tt
parse_five-IsClockwise fuel (a ∷ b ∷ c ∷ d ∷ []) = tt
parse_five-IsClockwise fuel (a ∷ b ∷ c ∷ d ∷ e ∷ []) =
    Yields-then (IsProper 0 59) IsClockwise _ _ (parse_cron_field-IsProper 0 59 fuel a) λ m p.
      Yields-then (IsProper 0 23) IsClockwise _ _ (parse_cron_field-IsProper 0 23 fuel b) λ h q.
        Yields-then (IsProper 1 31) IsClockwise _ _ (parse_cron_field-IsProper 1 31 fuel c) λ x r.
          Yields-then (IsProper 1 12) IsClockwise _ _ (parse_cron_field-IsProper 1 12 fuel d) λ n s.
            Yields-then (IsProper 0 6) IsClockwise _ _ (parse_cron_field-IsProper 0 6 fuel e)
              λ w t. (p, q, r, s, t)
parse_five-IsClockwise fuel (a ∷ b ∷ c ∷ d ∷ e ∷ f ∷ rest) = tt

-- Every schedule that ParseCron accepts, from any text: each of its five fields is the wildcard or
-- allows at least one value, and only values of its own bounds, such as 0 to 59 for the minute.
pub parse_cron-IsClockwise :
    (fuel : ℕ) (expr : Bytes) (cs : CronSchedule) → parse_cron fuel expr ≡ ok cs → IsClockwise cs
unfolding parse_cron
parse_cron-IsClockwise fuel expr cs e =
    subst (Yields IsClockwise) e (parse_five-IsClockwise fuel (fields expr))
