-- ===== src/Audit/Readable.antt =====
-- The records that encoding/json reads back as they were written: it replaces what is not valid UTF-8
-- in a text, while the bytes of an action's detail are written in base64.
use polarisagi_harness.Prelude.{
  ℕ, zero, suc, ◌≤◌, ◌≡◌, refl, arith, Bool, true, false, ◌&&◌, ◌||◌, [], ◌∷◌, All, leb, ◌==◌,
  if◌then◌else◌,
}
use polarisagi_harness.Text.{Bytes}
use polarisagi_harness.Audit.Records.{AuditRecord, Codec, hashed, chained}

-- How many bytes follow the first byte of a rune, and the bounds of the next one.
abbrev following : ℕ → ℕ
following c = if leb c 127 then 0 else if leb c 223 then 1 else if leb c 239 then 2 else 3

abbrev lowest : ℕ → ℕ
lowest c = if c == 224 then 160 else if c == 240 then 144 else 128

abbrev highest : ℕ → ℕ
highest c = if c == 237 then 159 else if c == 244 then 143 else 191

abbrev is_first : ℕ → Bool
is_first c = leb c 127 || (leb 194 c && leb c 244)

abbrev utf8_from : ℕ → ℕ → ℕ → Bytes → Bool
utf8_from zero lo hi [] = true
utf8_from (suc n) lo hi [] = false
utf8_from zero lo hi (c ∷ cs) = is_first c && utf8_from (following c) (lowest c) (highest c) cs
utf8_from (suc n) lo hi (c ∷ cs) = (leb lo c && leb c hi) && utf8_from n 128 191 cs

-- utf8.Valid
unfoldable pub is_utf8 : Bytes → Bool
is_utf8 cs = utf8_from 0 0 0 cs

ascii_from : (cs : Bytes) (lo hi : ℕ) → All (λ (c : ℕ). c ≤ 127) cs → utf8_from 0 lo hi cs ≡ true
ascii_from [] lo hi a = refl
ascii_from (c ∷ cs) lo hi (h, a) =
    let t : leb c 127 ≡ true = ground (arith, h) in rw t (ascii_from cs (lowest c) (highest c) a)

pub is_utf8-ascii : (cs : Bytes) → All (λ (c : ℕ). c ≤ 127) cs → is_utf8 cs ≡ true
unfolding is_utf8
is_utf8-ascii cs a = ascii_from cs 0 0 a

-- The texts that a caller puts into a record.
pub record IsEntry (r : AuditRecord) : Type 0 where
  pub event_id : is_utf8 r.event_id ≡ true
  pub agent_id : is_utf8 r.agent_id ≡ true
  pub session_id : is_utf8 r.session_id ≡ true
  pub action_type : is_utf8 r.action_type ≡ true
  pub authorization : is_utf8 r.authorization ≡ true
  pub cap_token_id : is_utf8 r.cap_token_id ≡ true
  pub outcome : is_utf8 r.outcome ≡ true
  pub deny_reason : is_utf8 r.deny_reason ≡ true
  pub data_subjects : All (λ (t : Bytes). is_utf8 t ≡ true) r.data_subjects

pub record IsReadable (r : AuditRecord) : Type 0 where
  pub entry : IsEntry r
  pub prev : is_utf8 r.prev_hash ≡ true
  pub own : is_utf8 r.record_hash ≡ true

-- What Record makes of a caller's record, when its hash is printed in such a text too.
pub chained-IsReadable :
    (k : Codec) (last : Bytes) (now : ℕ) (r : AuditRecord)
    → is_utf8 (chained k last now r).record_hash ≡ true
    → is_utf8 last ≡ true
    → IsEntry r
    → IsReadable (chained k last now r)
unfolding chained hashed
chained-IsReadable k last now r own l e = record {
  entry = record {
    event_id = e.event_id;
    agent_id = e.agent_id;
    session_id = e.session_id;
    action_type = e.action_type;
    authorization = e.authorization;
    cap_token_id = e.cap_token_id;
    outcome = e.outcome;
    deny_reason = e.deny_reason;
    data_subjects = e.data_subjects;
  };
  prev = l;
  own = own;
}

-- Without its own hash, which is what is hashed.
pub bare-IsReadable : (r : AuditRecord) → IsReadable r → IsReadable (record r { record_hash = [] })
unfolding is_utf8
bare-IsReadable r v = record {
  entry = record {
    event_id = v.entry.event_id;
    agent_id = v.entry.agent_id;
    session_id = v.entry.session_id;
    action_type = v.entry.action_type;
    authorization = v.entry.authorization;
    cap_token_id = v.entry.cap_token_id;
    outcome = v.entry.outcome;
    deny_reason = v.entry.deny_reason;
    data_subjects = v.entry.data_subjects;
  };
  prev = v.prev;
  own = refl;
}
