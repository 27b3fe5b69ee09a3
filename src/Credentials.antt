-- ===== src/Credentials.antt =====
-- pkg/substrate/inference/credential_pool.go: the pool of API keys, its four strategies and the
-- cooldowns, with the reasons of error_classifier.go. Times are nanoseconds and a clock reading is an
-- argument; so is the draw of the random strategy. The pointer that Pick returns is the credential's
-- index, which stays the same, since the pool only grows at its end. Labels, which are for logs, are
-- given.
mod Picking
mod Rotation
mod Pool
mod LeastUsed
mod Tests
use polarisagi_harness.Prelude.{
  ℕ, zero, suc, ◌+◌, ◌*◌, ◌%◌, Bool, true, false, Option, none, some, List, [], ◌∷◌, ◌++◌, String,
  length, ltb, ◌==◌, if◌then◌else◌,
}

pub data SelectStrategy : Type 0 where
  fill_first round_robin random least_used : SelectStrategy

pub data FailReason : Type 0 where
  auth auth_permanent billing rate_limit overloaded server_error timeout context_overflow
        payload_too_large image_too_large model_not_found format_error provider_policy_blocked
        thinking_signature long_context_tier oauth_long_context_forbidden llama_cpp_grammar
        unknown :
      FailReason

abbrev pub minute : ℕ
minute = 60_000_000_000

pub cooldown_for : FailReason → ℕ
cooldown_for auth = 5 * minute
cooldown_for billing = 60 * minute
cooldown_for rate_limit = 60 * minute
cooldown_for auth_permanent = 30 * 24 * 60 * minute
cooldown_for _ = 0

-- FallbackTierInt
pub fallback_tier_int : FailReason → ℕ
fallback_tier_int rate_limit = 1
fallback_tier_int auth = 1
fallback_tier_int billing = 1
fallback_tier_int server_error = 1
fallback_tier_int timeout = 2
fallback_tier_int context_overflow = 2
fallback_tier_int payload_too_large = 2
fallback_tier_int overloaded = 2
fallback_tier_int llama_cpp_grammar = 2
fallback_tier_int image_too_large = 2
fallback_tier_int auth_permanent = 4
fallback_tier_int format_error = 4
fallback_tier_int provider_policy_blocked = 4
fallback_tier_int _ = 3

-- What RecordResult reads of a classified error.
pub record ClassifiedError : Type 0 where
  pub reason : FailReason
  pub should_rotate_credential : Bool

-- The zero time is `none`.
pub record PooledCredential : Type 0 where
  pub key : String
  pub label : String
  pub request_count : ℕ
  pub cooldown_until : Option ℕ
  pub last_reason : Option FailReason

pub available_until : Option ℕ → ℕ → Bool
available_until none now = true
available_until (some t) now = ltb t now

pub available : PooledCredential → ℕ → Bool
available c now = available_until c.cooldown_until now

pub record_failure_reason : PooledCredential → ℕ → FailReason → PooledCredential
record_failure_reason c now r =
    if cooldown_for r == 0
    then c
    else record c { last_reason = some r; cooldown_until = some (now + cooldown_for r) }

-- The error of a call, as Classify gives it, or none.
pub record_result : PooledCredential → ℕ → Option ClassifiedError → PooledCredential
record_result c now none = c
record_result c now (some e) =
    if e.should_rotate_credential then record_failure_reason c now e.reason else c

pub record CredentialPool : Type 0 where
  pub creds : List PooledCredential
  pub strategy : SelectStrategy
  pub rr_cursor : ℕ

abbrev pub fresh : String × String → PooledCredential
fresh (key, label) = record {
  key = key;
  label = label;
  request_count = 0;
  cooldown_until = none;
  last_reason = none;
}

pub new_creds : List (String × String) → List PooledCredential
new_creds [] = []
new_creds (k ∷ ks) = fresh k ∷ new_creds ks

pub new_credential_pool : List (String × String) → SelectStrategy → CredentialPool
new_credential_pool ks s = record { creds = new_creds ks; strategy = s; rr_cursor = 0 }

pub add : CredentialPool → String × String → CredentialPool
add p k = record p { creds = p.creds ++ fresh k ∷ [] }

pub available_count : List PooledCredential → ℕ → ℕ
available_count [] now = 0
available_count (c ∷ cs) now =
    let rest = available_count cs now in if available c now then suc rest else rest

pub get_elem? : List PooledCredential → ℕ → Option PooledCredential
get_elem? [] i = none
get_elem? (c ∷ cs) zero = some c
get_elem? (c ∷ cs) (suc i) = get_elem? cs i

-- The loop from index i on.
pub pick_fill_first : List PooledCredential → ℕ → ℕ → Option ℕ
pick_fill_first [] now i = none
pick_fill_first (c ∷ cs) now i =
    let rest = pick_fill_first cs now (suc i) in if available c now then some i else rest

pub is_available_at : Option PooledCredential → ℕ → Bool
is_available_at none now = false
is_available_at (some c) now = available c now

-- The loop from i on, `left` rounds before n.
pub pick_round_robin : List PooledCredential → ℕ → ℕ → ℕ → ℕ → Option ℕ
pick_round_robin cs now cursor zero i = none
pick_round_robin cs now cursor (suc left) i =
    let idx = (cursor + i) % length cs in
    let rest = pick_round_robin cs now cursor left (suc i) in
    if is_available_at (get_elem? cs idx) now then some idx else rest

-- `avail`, as indices.
pub available_from : List PooledCredential → ℕ → ℕ → List ℕ
available_from [] now i = []
available_from (c ∷ cs) now i =
    let rest = available_from cs now (suc i) in if available c now then i ∷ rest else rest

pub index_at : List ℕ → ℕ → Option ℕ
index_at [] k = none
index_at (x ∷ xs) zero = some x
index_at (x ∷ xs) (suc k) = index_at xs k

-- `avail[rand.IntN(len(avail))]`: any draw, below the length by its remainder.
pub pick_random : List PooledCredential → ℕ → ℕ → Option ℕ
pick_random cs now draw =
    let avail = available_from cs now 0 in index_at avail (draw % length avail)

-- `chosen` with its count.
pub less_used : PooledCredential → ℕ → ℕ → Option (ℕ × ℕ) → Option (ℕ × ℕ)
less_used c now i none = if available c now then some (i, c.request_count) else none
less_used c now i (some (j, n)) =
    let kept = some (j, n) in
    if available c now
    then if ltb c.request_count n then some (i, c.request_count) else kept
    else kept

pub least_used_from : List PooledCredential → ℕ → ℕ → Option (ℕ × ℕ) → Option (ℕ × ℕ)
least_used_from [] now i chosen = chosen
least_used_from (c ∷ cs) now i chosen = least_used_from cs now (suc i) (less_used c now i chosen)

pub index_of : Option (ℕ × ℕ) → Option ℕ
index_of none = none
index_of (some (i, n)) = some i

pub pick_least_used : List PooledCredential → ℕ → Option ℕ
pick_least_used cs now = index_of (least_used_from cs now 0 none)

-- The index that Pick returns under a strategy; `none` is nil.
pub picked : SelectStrategy → List PooledCredential → ℕ → ℕ → ℕ → Option ℕ
picked fill_first cs cursor now draw = pick_fill_first cs now 0
picked round_robin cs cursor now draw = pick_round_robin cs now cursor (length cs) 0
picked random cs cursor now draw = pick_random cs now draw
picked least_used cs cursor now draw = pick_least_used cs now

-- Only the round robin moves the cursor.
pub next_cursor : SelectStrategy → ℕ → ℕ → Option ℕ → ℕ
next_cursor fill_first n cursor o = cursor
next_cursor random n cursor o = cursor
next_cursor least_used n cursor o = cursor
next_cursor round_robin n cursor none = cursor
next_cursor round_robin n cursor (some i) = suc i % n

pub pick : CredentialPool → ℕ → ℕ → CredentialPool × Option ℕ
pick p now draw =
    let o = picked p.strategy p.creds p.rr_cursor now draw in
    (record p { rr_cursor = next_cursor p.strategy (length p.creds) p.rr_cursor o }, o)

pub modify_at :
    List PooledCredential → ℕ → (PooledCredential → PooledCredential) → List PooledCredential
modify_at [] i f = []
modify_at (c ∷ cs) zero f = f c ∷ cs
modify_at (c ∷ cs) (suc i) f = c ∷ modify_at cs i f

abbrev counted : PooledCredential → PooledCredential
counted c = record c { request_count = suc c.request_count }

-- The credential's own CredFn counts a request; a failure is recorded on it.
pub data Op : Type 0 where
  add_key : String × String → Op
  pick_at : ℕ → ℕ → Op
  request_with : ℕ → Op
  record_at : ℕ → ℕ → Option ClassifiedError → Op

pub apply : CredentialPool → Op → CredentialPool
apply p (add_key k) = add p k
apply p (pick_at now draw) = (pick p now draw).0
apply p (request_with i) = record p { creds = modify_at p.creds i counted }
apply p (record_at i now e) = record p { creds = modify_at p.creds i (λ c. record_result c now e) }

pub run_ops : CredentialPool → List Op → CredentialPool
run_ops p [] = p
run_ops p (o ∷ os) = run_ops (apply p o) os
