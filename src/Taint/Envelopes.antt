-- ===== src/Taint/Envelopes.antt =====
-- Sealed envelopes between modules.
use polarisagi_harness.Prelude.{
  ℕ, ◌≡◌, ◌≢◌, refl, ap, inl, inr, true, false, Option, none, some, List, [], ◌∷◌, arith,
  Bool-cases,
}
use polarisagi_harness.Taint.{
  TaintedString, TaintEnvelope, Crypto, taint_high, compute_hmac, seal, unseal, both_equal,
  same_bytes,
}

same_bytes_refl : (xs : List ℕ) → same_bytes xs xs ≡ true
unfolding same_bytes
same_bytes_refl [] = refl
same_bytes_refl (x ∷ xs) = ground (arith, same_bytes_refl xs)

same_bytes-eq : (xs ys : List ℕ) → same_bytes xs ys ≡ true → xs ≡ ys
unfolding same_bytes
same_bytes-eq [] [] e = refl
same_bytes-eq (x ∷ xs) [] e = absurd (ground (arith, e))
same_bytes-eq [] (y ∷ ys) e = absurd (ground (arith, e))
same_bytes-eq (x ∷ xs) (y ∷ ys) e = ground (arith, e, same_bytes-eq xs ys)

both_equal_refl : (o : Option (List ℕ)) (d : List ℕ) → o ≡ some d → both_equal o o ≡ true
unfolding both_equal
both_equal_refl none d q = absurd (ground (arith, q))
both_equal_refl (some e) d q = same_bytes_refl e

both_equal-eq : (o p : Option (List ℕ)) → both_equal o p ≡ true → o ≡ p
unfolding both_equal
both_equal-eq none p q = absurd (ground (arith, q))
both_equal-eq (some d) none q = absurd (ground (arith, q))
both_equal-eq (some d) (some e) q = ap (λ (x : List ℕ). some x) (same_bytes-eq d e q)

-- An envelope that is sealed and unsealed under one key, whose MAC is hexadecimal as the library
-- writes it, gives the content, the level and the source back, and is accepted.
pub unseal-seal :
    (c : Crypto) (key : List ℕ) (ts : TaintedString) (mac : List ℕ)
    → c.decode_hex (compute_hmac c key (seal c key ts)) ≡ some mac
    → unseal c key (seal c key ts) ≡ (record ts { origin = ts.source.entity_id }, true)
unfolding unseal seal compute_hmac
unseal-seal c key ts mac h = rw (both_equal_refl _ mac h) refl

-- An envelope of any content, level and source that carries a MAC which is not that of just these
-- under the key is refused, and what comes out of it has the level High.
pub unseal-tampered :
    (c : Crypto) (key : List ℕ) (env : TaintEnvelope)
    → c.decode_hex (compute_hmac c key env) ≢ c.decode_hex env.hmac
    → ((unseal c key env).1 ≡ false)
      × ((unseal c key env).0.source.origin_taint_level ≡ taint_high)
      × ((unseal c key env).0.content ≡ env.content)
unfolding unseal
unseal-tampered c key env h =
    elim (Bool-cases (both_equal (c.decode_hex (compute_hmac c key env)) (c.decode_hex env.hmac))) [
      | inl t ↦ absurd (h (both_equal-eq _ _ t))
      | inr f ↦ (rw f refl, rw f refl, rw f refl)
    ]
