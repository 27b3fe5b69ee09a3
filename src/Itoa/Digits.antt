-- ===== src/Itoa/Digits.antt =====
-- What the printers print.
use polarisagi_harness.Prelude.{
  ℕ, zero, suc, ◌+◌, ◌-◌, ◌*◌, ◌/◌, ◌%◌, ◌≤◌, ◌<◌, ◌≡◌, ap, ◌∙◌, inl, inr, none, some, List, [],
  ◌∷◌, ◌==◌, arith, Bool-cases, ==_iff, All,
}
use polarisagi_harness.Itoa.{fill_digits, buf_len, itoa64, itoa}

-- A reader of decimals: the value of a list of digits after `acc`.
abbrev pub read : ℕ → List ℕ → ℕ
read acc [] = acc
read acc (d ∷ ds) = read (acc * 10 + (d - b'0')) ds

-- `10 ^ n`, which computes along `n`.
abbrev pub pow10 : ℕ → ℕ
pow10 zero = 1
pow10 (suc n) = 10 * pow10 n

pow10_pos : (n : ℕ) → 0 < pow10 n
pow10_pos zero = omega arith
pow10_pos (suc n) = omega (arith, pow10_pos n)

abbrev pub IsDigit : ℕ → Type 0
IsDigit d = (b'0' ≤ d) × (d ≤ b'9')

fill_digits_total :
    (pos i : ℕ) (out : List ℕ)
    → i < pow10 pos
    → All IsDigit out
    → (ds : List ℕ) × (fill_digits pos i out ≡ some ds) × (read 0 ds ≡ read i out) × All IsDigit ds
unfolding fill_digits
fill_digits_total zero i out h a = (out, ground arith, ground arith, a)
fill_digits_total (suc pos) i out h a = elim (Bool-cases (i == 0)) [
  | inl z ↦ (out, rw z, ground arith, a)
  | inr n ↦
      let (ds, e, r, b) =
        fill_digits_total pos (i / 10) ((b'0' + i % 10) ∷ out) (omega arith)
          ((omega arith, omega arith), a) in
      (ds, rw n e, r ∙ ap (λ (k : ℕ). read k out) (omega arith), b)
]

fill_digits_overflow : (pos i : ℕ) (out : List ℕ) → pow10 pos ≤ i → fill_digits pos i out ≡ none
unfolding fill_digits
fill_digits_overflow zero i out h = ground arith
fill_digits_overflow (suc pos) i out h =
    ground (arith, fill_digits_overflow pos (i / 10) ((b'0' + i % 10) ∷ out), pow10_pos (suc pos))

-- Below 10^12 the printer of event numbers writes digits that read back as the number, and the
-- printer of idempotency keys writes the same.
pub itoa64-read :
    (i : ℕ)
    → i < pow10 buf_len
    → (ds : List ℕ) × (itoa64 i ≡ some ds) × (itoa i ≡ some ds) × (read 0 ds ≡ i) × All IsDigit ds
unfolding itoa64 itoa
itoa64-read i h = elim (Bool-cases (i == 0)) [
  | inl z ↦ (b'0' ∷ [], rw z, rw z, ground arith, ((omega arith, omega arith), tt))
  | inr n ↦ let (ds, e, r, b) = fill_digits_total buf_len i [] h tt in (ds, rw n e, rw n e, r, b)
]

-- From 10^12 on both printers write before the start of their 12-byte buffer and panic.
pub itoa64_panics : (i : ℕ) → pow10 buf_len ≤ i → (itoa64 i ≡ none) × (itoa i ≡ none)
unfolding itoa64 itoa
itoa64_panics i h = elim (Bool-cases (i == 0)) [
  | inl z ↦ absurd (omega (arith, (==_iff i 0).0 z))
  | inr n ↦ let e = fill_digits_overflow buf_len i [] h in (rw n e, rw n e)
]
