-- ===== src/Text/Digits.antt =====
-- Texts of digits: they are not cut, split or trimmed, and Atoi reads no sign in them.
use polarisagi_harness.Prelude.{
  ℕ, ◌≤◌, ◌≡◌, refl, ap, ◌∙◌, inl, inr, true, false, [], ◌∷◌, All, All-map, Bool-cases, arith, ◌==◌,
}
use polarisagi_harness.Text.{
  Bytes, same_bytes, is_space, trim_left, is_blank, trim_right, trim, split, has, is_digit,
}

-- No space is in the text.
abbrev pub IsSolid : Bytes → Type 0
IsSolid cs = All (λ (c : ℕ). is_space c ≡ false) cs

trim_right-IsSolid : (cs : Bytes) → IsSolid cs → trim_right cs ≡ cs
unfolding trim_right is_blank
trim_right-IsSolid [] a = refl
trim_right-IsSolid (c ∷ cs) (n, a) = rw n (ap (λ x. c ∷ x) (trim_right-IsSolid cs a))

trim_left-IsSolid : (cs : Bytes) → IsSolid cs → trim_left cs ≡ cs
unfolding trim_left
trim_left-IsSolid [] a = refl
trim_left-IsSolid (c ∷ cs) (n, a) = rw n

pub trim-IsSolid : (cs : Bytes) → IsSolid cs → trim cs ≡ cs
unfolding trim
trim-IsSolid cs a = ap trim_right (trim_left-IsSolid cs a) ∙ trim_right-IsSolid cs a

-- Without the separator there is one part.
pub split-one : (sep : ℕ) (cs : Bytes) → has sep cs ≡ false → split sep cs ≡ cs ∷ []
unfolding split has
split-one sep [] h = refl
split-one sep (c ∷ cs) h = elim (Bool-cases (c == sep)) [
  | inl t ↦ ground (arith, t, h)
  | inr n ↦ rw (n, split-one sep cs (rw n at h))
]

abbrev pub AreDigits : Bytes → Type 0
AreDigits cs = All (λ (c : ℕ). is_digit c ≡ true) cs

digit-range : (c : ℕ) → is_digit c ≡ true → (b'0' ≤ c) × (c ≤ b'9')
unfolding is_digit
digit-range c e = (ground arith, ground arith)

digit-not-space : (c : ℕ) → is_digit c ≡ true → is_space c ≡ false
unfolding is_space
digit-not-space c e = ground (arith, digit-range c e)

pub AreDigits-IsSolid : (cs : Bytes) → AreDigits cs → IsSolid cs
AreDigits-IsSolid cs a = All-map _ _ cs digit-not-space a

-- No byte outside of the digits is found among them.
pub has-AreDigits :
    (sep : ℕ) (cs : Bytes) → is_digit sep ≡ false → AreDigits cs → has sep cs ≡ false
unfolding has
has-AreDigits sep [] n a = refl
has-AreDigits sep (c ∷ cs) n (d, a) = elim (Bool-cases (c == sep)) [
  | inl t ↦ ground (arith, t, ap is_digit, n, d)
  | inr f ↦ rw f (has-AreDigits sep cs n a)
]

pub same_bytes-star : (cs : Bytes) → AreDigits cs → same_bytes cs (b'*' ∷ []) ≡ false
unfolding same_bytes
same_bytes-star [] a = refl
same_bytes-star (c ∷ cs) (d, a) = ground (arith, digit-range c d)
