-- ===== src/Tokens/Tests.antt =====
-- A toy scheme, which signs a text with itself, and the theorems at work on its tokens.
use polarisagi_harness.Prelude.{
  ℕ, ◌*◌, ◌==◌, ◌≡◌, ◌≢◌, refl, sym, ap, ◌∙◌, inl, inr, true, false, none, some, List, [], ◌∷◌,
  String, arith, Bool, Option, update, if◌then◌else◌, str_eq, str_eq_iff,
}
use polarisagi_harness.Tokens.{
  CapabilityType, fs, shell, Token, TokenClaims, Scheme, token_expired, input_required,
  new_token_manager, revoke, revoke_all, evict, drop_oldest, enqueue, mint, signed, is_empty,
  ttl_of, min_ttl, min_from, lower, default_ttl, second, verify, check_payload, has_cap, holds,
  same_cap, granted,
}
use polarisagi_harness.Tokens.Validity.{verify-tampered, revoked_refused}

-- The text of the claims is the agent's id.
abbrev toy : Scheme
toy = record { sign = λ p. p; verify = str_eq; marshal = λ c. some c.agent_id }

abbrev shell_token : Token
shell_token = record {
  claims = record {
    token_id = "t";
    agent_id = "a";
    caps = fs ∷ shell ∷ [];
    issued_at = 7;
    expires_at = 37;
  };
  signature = "a";
}

mint_shell : mint toy "a" (fs ∷ shell ∷ []) 0 "t" (7 * second) (7 * second) ≡ inr shell_token
unfolding mint signed is_empty ttl_of min_ttl min_from lower default_ttl
mint_shell = refl

shell_held : has_cap toy new_token_manager (some shell_token) shell (37 * second) ≡ inr true
unfolding has_cap holds same_cap granted verify check_payload new_token_manager
shell_held = refl

shell_expires :
    has_cap toy new_token_manager (some shell_token) shell (38 * second) ≡ inl token_expired
unfolding has_cap holds same_cap granted verify check_payload new_token_manager
shell_expires = refl

no_agent_no_token : mint toy "" (fs ∷ []) 0 "t" 0 0 ≡ inl input_required
unfolding mint signed is_empty ttl_of min_ttl min_from lower default_ttl
no_agent_no_token = refl

toy_verifies : (p : String) → toy.verify p (toy.sign p) ≡ true
toy_verifies p = ground (arith, str_eq_iff p p)

revoked_refused_example :
    verify toy
      (revoke_all (revoke (revoke_all new_token_manager ("u" ∷ [])) "t") ("v" ∷ []))
      (some shell_token)
      0
    ≢ none
unfolding revoke_all revoke enqueue evict drop_oldest new_token_manager update
revoked_refused_example = revoked_refused toy ("u" ∷ []) shell_token ("v" ∷ []) 0 refl (omega arith)

is_one_fs : List CapabilityType → Bool
is_one_fs (fs ∷ []) = true
is_one_fs _ = false

one_fs : (cs : List CapabilityType) → is_one_fs cs ≡ true → cs ≡ fs ∷ []
unfolding is_one_fs
one_fs cs e = ground arith

abbrev claims_of : String → String → List CapabilityType → ℕ → ℕ → TokenClaims
claims_of t a cs i x = record {
  token_id = t;
  agent_id = a;
  caps = cs;
  issued_at = i;
  expires_at = x;
}

-- A text for the claims of one shape only: the agent's id.
abbrev text_of : TokenClaims → Option String
text_of c =
    if str_eq c.token_id "t"
    then if is_one_fs c.caps
      then if c.issued_at == 0 then if c.expires_at == 300 then some c.agent_id else none else none
      else none
    else none

text_of_lem :
    (c : TokenClaims) (p : String) → text_of c ≡ some p → c ≡ claims_of "t" p (fs ∷ []) 0 300
text_of_lem c p e =
    let t : c.token_id ≡ "t" = ground (arith, e, str_eq_iff c.token_id "t") in
    let b : is_one_fs c.caps ≡ true = ground (arith, e) in
    let i : c.issued_at ≡ 0 = ground (arith, e) in
    let x : c.expires_at ≡ 300 = ground (arith, e) in
    let a : c.agent_id ≡ p = ground (arith, e) in
    ap (λ y. claims_of y c.agent_id c.caps c.issued_at c.expires_at) t
    ∙ ap (λ y. claims_of "t" y c.caps c.issued_at c.expires_at) a
    ∙ ap (λ y. claims_of "t" p y c.issued_at c.expires_at) (one_fs c.caps b)
    ∙ ap (λ y. claims_of "t" p (fs ∷ []) y c.expires_at) i
    ∙ ap (λ y. claims_of "t" p (fs ∷ []) 0 y) x

abbrev strict : Scheme
strict = record { sign = λ p. p; verify = str_eq; marshal = text_of }

abbrev fs_token : Token
fs_token = record { claims = claims_of "t" "a" (fs ∷ []) 0 300; signature = "a" }

mint_fs : mint strict "a" (fs ∷ []) 0 "t" 0 0 ≡ inr fs_token
unfolding mint signed is_empty ttl_of min_ttl min_from lower default_ttl is_one_fs
mint_fs = refl

fs_verifies : verify strict new_token_manager (some fs_token) 0 ≡ none
unfolding verify check_payload new_token_manager is_one_fs
fs_verifies = refl

toy_binds : (p q : String) → str_eq p q ≡ true → p ≡ q
toy_binds p q e = ground (arith, e, str_eq_iff p q)

verify-tampered_example : fs_token.claims ≡ fs_token.claims
verify-tampered_example =
    verify-tampered strict "a" (fs ∷ []) 0 "t" 0 0 fs_token fs_token new_token_manager 0 toy_binds
      (λ c d p m n. text_of_lem c p m ∙ sym (text_of_lem d p n)) mint_fs refl fs_verifies
