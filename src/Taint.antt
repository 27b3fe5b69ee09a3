-- ===== src/Taint.antt =====
-- Taint: the levels and their propagation (internal/protocol/types.go), the tracker, the fence of
-- untrusted data and the sealed envelopes (pkg/substrate/taint.go), the sanitizers
-- (pkg/substrate/taint_sanitizer.go) and the gate of the prompt slots
-- (pkg/substrate/policy/taint_gate.go). Texts are lists of bytes, ids and labels are texts. The
-- hashes and the hexadecimal code are the standard library's and enter as arguments.
pub mod Propagation
pub mod Sanitizing
pub mod Envelopes
mod Tests
use polarisagi_harness.Prelude.{
  ℕ, suc, ◌+◌, ◌-◌, Bool, true, false, not, ◌||◌, ◌&&◌, Option, none, some, List, [], ◌∷◌, ◌++◌,
  String, ltb, leb, ◌==◌, str_eq, lookup, insert, if◌then◌else◌,
}

-- A level; those in use are never below `none`, 0.
abbrev pub TaintLevel : Type 0
TaintLevel = ℕ

abbrev pub taint_none : TaintLevel
taint_none = 0

abbrev pub taint_low : TaintLevel
taint_low = 1

abbrev pub taint_medium : TaintLevel
taint_medium = 2

abbrev pub taint_high : TaintLevel
taint_high = 3

abbrev pub taint_user_reviewed : TaintLevel
taint_user_reviewed = 4

-- The loop of PropagateTaint at the maximum so far.
pub max_from : TaintLevel → List TaintLevel → TaintLevel
max_from m [] = m
max_from m (t ∷ ts) = max_from (if ltb m t then t else m) ts

pub propagate_taint : List TaintLevel → TaintLevel
propagate_taint ts = max_from 0 ts

-- The tracker: the levels of ids.
abbrev pub TaintTracker : Type 0
TaintTracker = List (String × TaintLevel)

pub new_taint_tracker : TaintTracker
new_taint_tracker = []

-- A level replaces a lower one only.
track_at : TaintTracker → String → TaintLevel → Option TaintLevel → TaintTracker
track_at book id level none = insert id level book
track_at book id level (some existing) = if ltb existing level then insert id level book else book

pub track : TaintTracker → String → TaintLevel → TaintTracker
track book id level = track_at book id level (lookup id book)

-- A missing id has the zero level.
abbrev pub or_zero : Option TaintLevel → TaintLevel
or_zero none = 0
or_zero (some l) = l

pub get_level : TaintTracker → String → TaintLevel
get_level book id = or_zero (lookup id book)

-- The level of an id that is not there is not looked at.
raise : Option TaintLevel → TaintLevel → TaintLevel
raise none m = m
raise (some l) m = if ltb m l then l else m

max_of_ids : TaintTracker → TaintLevel → List String → TaintLevel
max_of_ids book m [] = m
max_of_ids book m (id ∷ ids) = max_of_ids book (raise (lookup id book) m) ids

pub get_max_taint : TaintTracker → List String → TaintLevel
get_max_taint book ids = max_of_ids book 0 ids

pub record TaintSource : Type 0 where
  pub module_name : String
  pub entity_id : String
  pub event_id : String
  pub origin_taint_level : TaintLevel

pub record TaintedString : Type 0 where
  pub content : List ℕ
  pub source : TaintSource
  pub origin : String

abbrev with_level : TaintedString → TaintLevel → TaintedString
with_level ts l = record ts { source = record ts.source { origin_taint_level = l } }

-- The content of a SafeString.
abbrev pub SafeString : Type 0
SafeString = List ℕ

pub data SanitizeError : Type 0 where
  strict_schema_required : SanitizeError
  cannot_sanitize : TaintLevel → SanitizeError

-- The level one lower, at most Medium. Below 0 the code returns to 0, where ℕ stops at once.
abbrev lowered : TaintLevel → TaintLevel
lowered l = let n = l - 1 in if ltb taint_medium n then taint_medium else n

pub sanitize_by_schema : TaintedString → Bool → TaintedString × Option SanitizeError
sanitize_by_schema ts has_strict_schema =
    if has_strict_schema
    then (with_level ts (lowered ts.source.origin_taint_level), none)
    else (ts, some strict_schema_required)

pub sanitize_by_summarization : TaintedString → TaintedString
sanitize_by_summarization ts =
    let n = lowered ts.source.origin_taint_level in
    with_level ts (if ltb n taint_medium then taint_medium else n)

-- `user` is the text `user_review:` with the reviewer's id.
pub sanitize_by_user_review : TaintedString → String → TaintedString
sanitize_by_user_review ts user = record ts {
  source = record ts.source { origin_taint_level = taint_user_reviewed; module_name = user };
}

unfoldable pub sanitize_to_safe : TaintedString → Option SafeString
sanitize_to_safe ts =
    let l = ts.source.origin_taint_level in
    if ltb taint_low l && not (l == taint_user_reviewed) then none else some ts.content

pub data PromptSlot : Type 0 where
  slot_system slot_instruction slot_data slot_tool_result slot_eg_demo : PromptSlot
  slot_unknown : String → PromptSlot

pub slot_max_allowed_taint : PromptSlot → Option TaintLevel
slot_max_allowed_taint slot_system = some taint_none
slot_max_allowed_taint slot_instruction = some taint_low
slot_max_allowed_taint slot_data = some taint_high
slot_max_allowed_taint slot_tool_result = some taint_high
slot_max_allowed_taint slot_eg_demo = some taint_none
slot_max_allowed_taint (slot_unknown s) = none

within : TaintLevel → Option TaintLevel → Bool
within l none = false
within l (some m) = not (ltb m l)

-- Whether a content of the level may go into the slot; the Go function returns nil or the one error.
pub check_slot_assignment : PromptSlot → TaintLevel → Bool
check_slot_assignment slot level = within level (slot_max_allowed_taint slot)

pub check_multi_source : PromptSlot → List TaintLevel → Bool
check_multi_source slot levels = check_slot_assignment slot (propagate_taint levels)

-- The standard library: the hexadecimal SHA-256 of a text, the hexadecimal HMAC of a content, level
-- and source under a key, and the reader of hexadecimal texts.
pub record Crypto : Type 0 where
  pub sha_hex : List ℕ → List ℕ
  pub hmac_hex : List ℕ → List ℕ → TaintLevel → TaintSource → List ℕ
  pub decode_hex : List ℕ → Option (List ℕ)

first : ℕ → List ℕ → List ℕ
first n [] = []
first n (x ∷ xs) = let rest = first (n - 1) xs in if n == 0 then [] else x ∷ rest

-- `=== UNTRUSTED_DATA_`
abbrev pub opening : List ℕ
opening =
    b'=' ∷ b'=' ∷ b'=' ∷ b' ' ∷ b'U' ∷ b'N' ∷ b'T' ∷ b'R' ∷ b'U' ∷ b'S' ∷ b'T' ∷ b'E' ∷ b'D' ∷ b'_'
    ∷ b'D' ∷ b'A' ∷ b'T' ∷ b'A' ∷ b'_' ∷ []

-- ` ===` and a line feed.
abbrev pub middle : List ℕ
middle = b' ' ∷ b'=' ∷ b'=' ∷ b'=' ∷ 10 ∷ []

-- A line feed and `=== END_UNTRUSTED_DATA ===`.
abbrev pub closing : List ℕ
closing =
    10 ∷ b'=' ∷ b'=' ∷ b'=' ∷ b' ' ∷ b'E' ∷ b'N' ∷ b'D' ∷ b'_' ∷ b'U' ∷ b'N' ∷ b'T' ∷ b'R' ∷ b'U'
    ∷ b'S' ∷ b'T' ∷ b'E' ∷ b'D' ∷ b'_' ∷ b'D' ∷ b'A' ∷ b'T' ∷ b'A' ∷ b' ' ∷ b'=' ∷ b'=' ∷ b'=' ∷ []

pub spotlighting : Crypto → TaintedString → List ℕ
spotlighting c ts =
    if ltb ts.source.origin_taint_level taint_medium
    then ts.content
    else opening ++ (first 8 (c.sha_hex ts.content) ++ (middle ++ (ts.content ++ closing)))

pub record TaintEnvelope : Type 0 where
  pub content : List ℕ
  pub level : TaintLevel
  pub source : TaintSource
  pub hmac : List ℕ

pub compute_hmac : Crypto → List ℕ → TaintEnvelope → List ℕ
compute_hmac c key env = c.hmac_hex key env.content env.level env.source

pub seal : Crypto → List ℕ → TaintedString → TaintEnvelope
seal c key ts =
    let l = ts.source.origin_taint_level in
    record {
      content = ts.content;
      level = l;
      source = ts.source;
      hmac = c.hmac_hex key ts.content l ts.source;
    }

-- Equality of byte lists.
pub same_bytes : List ℕ → List ℕ → Bool
same_bytes [] [] = true
same_bytes (x ∷ xs) [] = false
same_bytes [] (y ∷ ys) = false
same_bytes (x ∷ xs) (y ∷ ys) = x == y && same_bytes xs ys

both_equal : Option (List ℕ) → Option (List ℕ) → Bool
both_equal none e = false
both_equal (some d) none = false
both_equal (some d) (some e) = same_bytes d e

pub unseal : Crypto → List ℕ → TaintEnvelope → TaintedString × Bool
unseal c key env =
    if both_equal (c.decode_hex (compute_hmac c key env)) (c.decode_hex env.hmac)
    then (
      record { content = env.content; source = env.source; origin = env.source.entity_id },
      true,
    )
    else (
      record {
        content = env.content;
        source = record env.source { origin_taint_level = taint_high };
        origin = "hmac_mismatch_upgraded";
      },
      false,
    )
