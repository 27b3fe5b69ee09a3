-- ===== src/Audit/Trail.antt =====
-- Record, VerifyIntegrity and RotateIfNeeded.
use polarisagi_harness.Prelude.{
  ℕ, suc, Bool, true, false, ◌&&◌, Option, none, some, List, [], ◌∷◌, ◌++◌, length, ltb,
  if◌then◌else◌,
}
use polarisagi_harness.Text.{Bytes, codes, same_bytes, decimal}
use polarisagi_harness.Audit.Records.{
  AuditRecord, Codec, Event, AuditTrail, Store, Reply, returned, not_persisted, serialize_record,
  hashed, chained, named, event_of, insert_event,
}

abbrev pub add_record : AuditTrail → AuditRecord → AuditTrail
add_record t r = record t { records = r ∷ t.records; last_hash = r.record_hash }

unfoldable pub keep_record : Store → AuditRecord → Option (List Event) → Store × Reply
keep_record s r none = (s, not_persisted)
keep_record s r (some es) = (record { trail = add_record s.trail r; db = some es }, returned)

unfoldable pub store_record :
    Codec → Bool → Store → AuditRecord → ℕ → Option (List Event) → Store × Reply
store_record k up s r now none = (record s { trail = add_record s.trail r }, returned)
store_record k up s r now (some es) =
    keep_record s (named r) (insert_event up (event_of k (named r) now) es)

-- Record
unfoldable pub append_record : Codec → Bool → Store → AuditRecord → ℕ → Store × Reply
append_record k up s r now = store_record k up s (chained k s.trail.last_hash now r) now s.db

unfoldable pub is_linked : AuditRecord → List AuditRecord → Bool
is_linked r [] = true
is_linked r (q ∷ rs) = same_bytes r.prev_hash q.record_hash

unfoldable pub is_intact : Codec → AuditRecord → Bool
is_intact k r = same_bytes (k.sum (serialize_record k r)) r.record_hash

abbrev pub first_of : Option ℕ → Bool → ℕ → Option ℕ
first_of (some i) ok n = some i
first_of none ok n = if ok then none else some n

-- VerifyIntegrity: none for (true, -1), some i for (false, i). The record with `rs` before it has the
-- index `length rs`, and the loop stops at the lowest index with a fault.
unfoldable pub verify_integrity : Codec → List AuditRecord → Option ℕ
verify_integrity k [] = none
verify_integrity k (r ∷ rs) =
    first_of (verify_integrity k rs) (is_linked r rs && is_intact k r) (length rs)

abbrev epoch_size_limit_mb : ℕ
epoch_size_limit_mb = 100

unfoldable pub epoch_record : Codec → Bytes → ℕ → ℕ → Bytes → Bytes → Bytes → AuditRecord
epoch_record k prefix epoch now kind detail last = hashed k (record {
  event_id = prefix ++ decimal epoch;
  timestamp = now;
  agent_id = [];
  session_id = [];
  action_type = kind;
  action_detail = detail;
  trust_level = 0;
  authorization = [];
  cap_token_id = [];
  outcome = [];
  deny_reason = [];
  data_subjects = [];
  pii_detected = false;
  prev_hash = last;
  record_hash = [];
})

unfoldable pub epoch_end : Codec → AuditTrail → ℕ → AuditRecord
epoch_end k t now =
    epoch_record k (codes "epoch_end_") t.epoch_id now (codes "epoch_end")
      (k.end_detail t.epoch_id (length t.records) t.last_hash) t.last_hash

unfoldable pub epoch_start : Codec → ℕ → Bytes → ℕ → AuditRecord
epoch_start k epoch last now =
    epoch_record k (codes "epoch_start_") epoch now (codes "epoch_start")
      (k.start_detail epoch last) last

-- An insert whose error is dropped.
abbrev pub unless_refused : List Event → Option (List Event) → List Event
unless_refused es none = es
unless_refused es (some es') = es'

unfoldable pub try_insert : Codec → Bool → AuditRecord → Option (List Event) → Option (List Event)
try_insert k up r none = none
try_insert k up r (some es) =
    some (unless_refused es (insert_event up (event_of k r r.timestamp) es))

-- RotateIfNeeded; the two Booleans are the answers to its two inserts.
unfoldable pub rotate : Codec → Bool → Bool → Store → ℕ → ℕ → Store
rotate k up_end up_start s now_end now_start =
    let last = epoch_end k s.trail now_end in
    let first = epoch_start k (suc s.trail.epoch_id) last.record_hash now_start in
    record {
      trail = record {
        records = first ∷ [];
        last_hash = first.record_hash;
        epoch_id = suc s.trail.epoch_id;
        epoch_start_hash = last.record_hash;
        archive_dir = s.trail.archive_dir;
      };
      db = try_insert k up_start first (try_insert k up_end last s.db);
    }

unfoldable pub rotate_if_needed : Codec → Bool → Bool → Store → ℕ → ℕ → ℕ → Store
rotate_if_needed k up_end up_start s size_mb now_end now_start =
    if ltb size_mb epoch_size_limit_mb then s else rotate k up_end up_start s now_end now_start
