-- ===== src/Text/Printed.antt =====
-- Texts that are compared and printed.
use polarisagi_harness.Prelude.{
  ℕ, zero, suc, ◌+◌, ◌/◌, ◌%◌, ◌<◌, ◌≡◌, refl, ap, ◌∙◌, inl, inr, true, some, [], ◌∷◌, Bool-cases,
  arith, ◌==◌, ==_iff,
}
use polarisagi_harness.Text.{Bytes, same_bytes, is_digit, digits_from, decimal_from, decimal}

pub same_bytes_refl : (cs : Bytes) → same_bytes cs cs ≡ true
unfolding same_bytes
same_bytes_refl [] = refl
same_bytes_refl (c ∷ cs) = ground (arith, same_bytes_refl cs)

pub same_bytes→eq : (cs ds : Bytes) → same_bytes cs ds ≡ true → cs ≡ ds
unfolding same_bytes
same_bytes→eq [] [] e = refl
same_bytes→eq [] (d ∷ ds) e = cc
same_bytes→eq (c ∷ cs) [] e = cc
same_bytes→eq (c ∷ cs) (d ∷ ds) e = elim (Bool-cases (c == d)) [
  | inl t ↦ let h : c ≡ d = (==_iff c d).0 t in let ih = same_bytes→eq cs ds (rw t at e) in cc
  | inr f ↦ ground (arith, e, f)
]

is_digit-decimal : (n : ℕ) → is_digit (b'0' + n % 10) ≡ true
unfolding is_digit
is_digit-decimal n = ground arith

-- What the digits of a number say is the number: the room is enough.
decimal_from_lem :
    (room n : ℕ) (cs : Bytes) → n < room → digits_from 0 (decimal_from room n cs) ≡ digits_from n cs
unfolding decimal_from digits_from
decimal_from_lem zero n cs h = ground arith
decimal_from_lem (suc room) n cs h = elim (Bool-cases (n / 10 == 0)) [
  | inl e ↦ rw (e, is_digit-decimal n) (ap (λ m. digits_from m cs) (ground (arith, e)))
  | inr f ↦
      let ih = decimal_from_lem room (n / 10) ((b'0' + n % 10) ∷ cs) (ground (arith, h, f)) in
      rw f (ih ∙ rw (is_digit-decimal n) (ap (λ m. digits_from m cs) (omega arith)))
]

pub digits-decimal : (n : ℕ) → digits_from 0 (decimal n) ≡ some n
unfolding decimal digits_from
digits-decimal n = decimal_from_lem (suc n) n [] (omega arith)
