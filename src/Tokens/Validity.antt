-- ===== src/Tokens/Validity.antt =====
-- What Verify accepts: tokens as they were minted, until they expire or are revoked.
use polarisagi_harness.Prelude.{
  ℕ, ◌+◌, ◌/◌, ◌<◌, ◌≡◌, ◌≢◌, refl, sym, ap, ◌∙◌, ◌⊎◌, inl, inr, true, false, Option, none, some,
  List, String, length, ltb, arith, Bool-cases, str_eq, if◌then◌else◌,
}
use polarisagi_harness.Tokens.{
  CapabilityType, TokenClaims, Token, Scheme, TokenManager, Error, token_expired, token_revoked,
  second, new_token_manager, revoke, revoke_all, max_revoked_cap, signed, is_empty, ttl_of, mint,
  check_payload, verify,
}
use polarisagi_harness.Tokens.Revocation.{revoke_stays}

abbrev token_in : Token → Error ⊎ Token → Token
token_in d (inl e) = d
token_in d (inr t) = t

signed-inr :
    (k : Scheme) (claims : TokenClaims) (o : Option String) (tok : Token)
    → signed k claims o ≡ inr tok
    → (p : String) × (o ≡ some p) × (tok.claims ≡ claims) × (tok.signature ≡ k.sign p)
unfolding signed
signed-inr k claims none tok e = ground arith
signed-inr k claims (some p) tok e = (
  p,
  refl,
  ap (λ (t : Token). t.claims) (sym (ap (token_in tok) e)),
  ap (λ (t : Token). t.signature) (sym (ap (token_in tok) e)),
)

-- What a minted token holds.
mint-inr :
    (k : Scheme) (a : String) (caps : List CapabilityType) (ttl : ℕ) (id : String) (t0 t1 : ℕ)
    (tok : Token)
    → mint k a caps ttl id t0 t1 ≡ inr tok
    → (p : String) × (k.marshal tok.claims ≡ some p)
      × (tok.signature ≡ k.sign p)
      × (tok.claims.token_id ≡ id)
      × (tok.claims.expires_at ≡ (t1 + ttl_of ttl caps) / second)
unfolding mint
mint-inr k a caps ttl id t0 t1 tok e = elim (Bool-cases (str_eq a "")) [
  | inl t ↦ ground (arith, (rw t at e))
  | inr f ↦ elim (Bool-cases (is_empty caps)) [
    | inl t ↦ ground (arith, (rw (f, t) at e))
    | inr g ↦
        let (p, m, c, s) = signed-inr k _ _ tok (rw (f, g) at e) in
        (
          p,
          ap k.marshal c ∙ m,
          s,
          ap (λ (x : TokenClaims). x.token_id) c,
          ap (λ (x : TokenClaims). x.expires_at) c,
        )
  ]
]

check_payload-signed :
    (k : Scheme) (tm : TokenManager) (tok : Token) (now : ℕ) (p : String)
    → k.verify p tok.signature ≡ true
    → check_payload k tm tok now (some p) ≡ (
        if ltb tok.claims.expires_at (now / second)
        then some token_expired
        else if tm.revoked tok.claims.token_id
        then some token_revoked
        else none)
unfolding check_payload
check_payload-signed k tm tok now p v = rw v refl

-- If signatures verify what they sign: Verify answers for a minted token that it has expired once
-- its expiry is past, else that it is revoked if its id is in the list, and else that it is valid.
pub mint_verify :
    (k : Scheme) (a : String) (caps : List CapabilityType) (ttl : ℕ) (id : String) (t0 t1 : ℕ)
    (tok : Token) (tm : TokenManager) (now : ℕ)
    → ((p : String) → k.verify p (k.sign p) ≡ true)
    → mint k a caps ttl id t0 t1 ≡ inr tok
    → verify k tm (some tok) now ≡ (
        if ltb ((t1 + ttl_of ttl caps) / second) (now / second)
        then some token_expired
        else if tm.revoked id
        then some token_revoked
        else none)
unfolding verify
mint_verify k a caps ttl id t0 t1 tok tm now good e =
    let (p, m, s, i, x) = mint-inr k a caps ttl id t0 t1 tok e in
    ap (check_payload k tm tok now) m
    ∙ check_payload-signed k tm tok now p (ap (k.verify p) s ∙ good p)
    ∙ ap
        (λ y.
          if ltb y (now / second)
          then some token_expired
          else if tm.revoked tok.claims.token_id
          then some token_revoked
          else none)
        x
    ∙ ap
        (λ y.
          if ltb ((t1 + ttl_of ttl caps) / second) (now / second)
          then some token_expired
          else if tm.revoked y
          then some token_revoked
          else none)
        i

check_payload-none :
    (k : Scheme) (tm : TokenManager) (tok : Token) (now : ℕ) (o : Option String)
    → check_payload k tm tok now o ≡ none
    → (p : String) × (o ≡ some p)
      × (k.verify p tok.signature ≡ true)
      × (tm.revoked tok.claims.token_id ≡ false)
unfolding check_payload
check_payload-none k tm tok now none e = ground arith
check_payload-none k tm tok now (some p) e = (p, refl, ground arith, ground arith)

-- If a signature verifies only the text that it signs, and different claims have different texts: a
-- token with the signature of a minted one is valid only with the claims that were minted.
pub verify-tampered :
    (k : Scheme) (a : String) (caps : List CapabilityType) (ttl : ℕ) (id : String) (t0 t1 : ℕ)
    (tok changed : Token) (tm : TokenManager) (now : ℕ)
    → ((p q : String) → k.verify p (k.sign q) ≡ true → p ≡ q)
    → ((c d : TokenClaims) (p : String) → k.marshal c ≡ some p → k.marshal d ≡ some p → c ≡ d)
    → mint k a caps ttl id t0 t1 ≡ inr tok
    → changed.signature ≡ tok.signature
    → verify k tm (some changed) now ≡ none
    → changed.claims ≡ tok.claims
unfolding verify
verify-tampered k a caps ttl id t0 t1 tok changed tm now binds texts e same ok =
    let (p, m, s, i, x) = mint-inr k a caps ttl id t0 t1 tok e in
    let (q, n, v, r) = check_payload-none k tm changed now (k.marshal changed.claims) ok in
    let equal = binds q p (ap (k.verify q) (sym (same ∙ s)) ∙ v) in
    texts changed.claims tok.claims q n (m ∙ ap some (sym equal))

-- Whatever was revoked before: a token whose id is newly revoked is refused through fewer than 1000
-- further calls of Revoke, at every time.
pub revoked_refused :
    (k : Scheme) (past : List String) (tok : Token) (ids : List String) (now : ℕ)
    → (revoke_all new_token_manager past).revoked tok.claims.token_id ≡ false
    → length ids < max_revoked_cap
    → verify k
        (revoke_all (revoke (revoke_all new_token_manager past) tok.claims.token_id) ids)
        (some tok)
        now
      ≢ none
unfolding verify
revoked_refused k past tok ids now f h ok =
    let tm = revoke_all (revoke (revoke_all new_token_manager past) tok.claims.token_id) ids in
    let (p, m, v, r) = check_payload-none k tm tok now (k.marshal tok.claims) ok in
    let t = revoke_stays past tok.claims.token_id ids f h in ground (arith, t, r)
