-- ===== src/Tokens.antt =====
-- pkg/substrate/policy/capability_token.go: capability tokens, their signature, expiry and revocation.
-- Times are nanoseconds, clock readings and the random token id are arguments. The signature scheme
-- and the JSON text of the claims are parameters.
mod Revocation
mod Validity
mod Tests
use polarisagi_harness.Prelude.{
  ℕ, zero, suc, ◌+◌, ◌*◌, ◌/◌, Bool, true, false, Option, none, some, List, [], ◌∷◌, ◌++◌, String,
  length, ltb, leb, ◌==◌, ◌⊎◌, inl, inr, update, str_eq, if◌then◌else◌,
}

-- A text; the ones that the code names, and any other.
pub data CapabilityType : Type 0 where
  fs network shell mcp process : CapabilityType
  other : String → CapabilityType

abbrev pub second : ℕ
second = 1_000_000_000

pub default_ttl : CapabilityType → Option ℕ
default_ttl fs = some (300 * second)
default_ttl network = some (60 * second)
default_ttl shell = some (30 * second)
default_ttl mcp = some (120 * second)
default_ttl process = some (30 * second)
default_ttl (other t) = none

abbrev pub max_revoked_cap : ℕ
max_revoked_cap = 1000

pub data Error : Type 0 where
  token_expired token_revoked token_invalid token_malformed input_required : Error

pub record TokenClaims : Type 0 where
  pub token_id : String
  pub agent_id : String
  pub caps : List CapabilityType
  pub issued_at : ℕ
  pub expires_at : ℕ

pub record Token : Type 0 where
  pub claims : TokenClaims
  pub signature : String

-- ed25519 with the manager's keys, and json.Marshal of the claims.
pub record Scheme : Type 0 where
  pub sign : String → String
  pub verify : String → String → Bool
  pub marshal : TokenClaims → Option String

pub record TokenManager : Type 0 where
  pub revoked : String → Bool
  pub revoke_q : List String

pub new_token_manager : TokenManager
new_token_manager = record { revoked = λ t. false; revoke_q = [] }

pub lower : ℕ → Option ℕ → ℕ
lower least none = least
lower least (some ttl) = if ltb ttl least then ttl else least

pub min_from : ℕ → List CapabilityType → ℕ
min_from least [] = least
min_from least (c ∷ cs) = min_from (lower least (default_ttl c)) cs

pub min_ttl : List CapabilityType → ℕ
min_ttl caps = min_from (300 * second) caps

pub signed : Scheme → TokenClaims → Option String → Error ⊎ Token
signed k claims none = inl token_malformed
signed k claims (some payload) = inr (record { claims = claims; signature = k.sign payload })

pub is_empty : List CapabilityType → Bool
is_empty [] = true
is_empty (c ∷ cs) = false

-- The time to live that Mint uses; one of 0 or below is given as 0.
pub ttl_of : ℕ → List CapabilityType → ℕ
ttl_of ttl caps = if ttl == 0 then min_ttl caps else ttl

-- `id` is the generated id; `now` and `later` are the two readings of the clock.
pub mint : Scheme → String → List CapabilityType → ℕ → String → ℕ → ℕ → Error ⊎ Token
mint k agent_id caps ttl id now later =
    let claims : TokenClaims = record {
      token_id = id;
      agent_id = agent_id;
      caps = caps;
      issued_at = now / second;
      expires_at = (later + ttl_of ttl caps) / second;
    } in
    if str_eq agent_id ""
    then inl input_required
    else if is_empty caps
    then inl input_required
    else signed k claims (k.marshal claims)

pub check_payload : Scheme → TokenManager → Token → ℕ → Option String → Option Error
check_payload k tm tok now none = some token_malformed
check_payload k tm tok now (some payload) =
    if k.verify payload tok.signature
    then if ltb tok.claims.expires_at (now / second)
      then some token_expired
      else if tm.revoked tok.claims.token_id
      then some token_revoked
      else none
    else some token_invalid

-- Verify; no error is `none`.
pub verify : Scheme → TokenManager → Option Token → ℕ → Option Error
verify k tm none now = some token_malformed
verify k tm (some tok) now = check_payload k tm tok now (k.marshal tok.claims)

pub drop_oldest : TokenManager → List String → TokenManager
drop_oldest tm [] = tm
drop_oldest tm (oldest ∷ rest) = record {
  revoked = update tm.revoked oldest false;
  revoke_q = rest;
}

pub evict : TokenManager → TokenManager
evict tm = if leb max_revoked_cap (length tm.revoke_q) then drop_oldest tm tm.revoke_q else tm

pub enqueue : TokenManager → String → TokenManager
enqueue tm id = record { revoked = update tm.revoked id true; revoke_q = tm.revoke_q ++ id ∷ [] }

pub revoke : TokenManager → String → TokenManager
revoke tm id = if tm.revoked id then tm else enqueue (evict tm) id

pub revoke_all : TokenManager → List String → TokenManager
revoke_all tm [] = tm
revoke_all tm (id ∷ ids) = revoke_all (revoke tm id) ids

pub same_cap : CapabilityType → CapabilityType → Bool
same_cap fs fs = true
same_cap network network = true
same_cap shell shell = true
same_cap mcp mcp = true
same_cap process process = true
same_cap (other a) (other b) = str_eq a b
same_cap _ _ = false

pub holds : List CapabilityType → CapabilityType → Bool
holds [] cap = false
holds (c ∷ cs) cap = let rest = holds cs cap in if same_cap c cap then true else rest

pub granted : Option Error → Bool → Error ⊎ Bool
granted none b = inr b
granted (some e) b = inl e

pub has_cap : Scheme → TokenManager → Option Token → CapabilityType → ℕ → Error ⊎ Bool
has_cap k tm none cap now = inl token_malformed
has_cap k tm (some tok) cap now = granted (verify k tm (some tok) now) (holds tok.claims.caps cap)
