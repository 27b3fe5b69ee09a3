-- ===== src/Audit/Records.antt =====
-- The records, their hashes, and the rows of the table.
use polarisagi_harness.Prelude.{
  ℕ, Bool, true, false, Option, none, some, List, [], ◌∷◌, ◌++◌, ◌==◌, if◌then◌else◌,
}
use polarisagi_harness.Text.{Bytes, codes, same_bytes, decimal}

pub record AuditRecord : Type 0 where
  pub event_id : Bytes
  pub timestamp : ℕ
  pub agent_id : Bytes
  pub session_id : Bytes
  pub action_type : Bytes
  pub action_detail : Bytes
  pub trust_level : ℕ
  pub authorization : Bytes
  pub cap_token_id : Bytes
  pub outcome : Bytes
  pub deny_reason : Bytes
  pub data_subjects : List Bytes
  pub pii_detected : Bool
  pub prev_hash : Bytes
  pub record_hash : Bytes

-- The hexadecimal SHA-256 of a text, json.Marshal and json.Unmarshal of a record, and json.Marshal of
-- what the marks of an epoch's end and start say.
pub record Codec : Type 0 where
  pub sum : Bytes → Bytes
  pub marshal : AuditRecord → Bytes
  pub unmarshal : Bytes → Option AuditRecord
  pub end_detail : ℕ → ℕ → Bytes → Bytes
  pub start_detail : ℕ → Bytes → Bytes

-- A row of events, as far as the trail writes and reads it.
pub record Event : Type 0 where
  pub id : Bytes
  pub topic : Bytes
  pub actor : Bytes
  pub payload : Bytes
  pub created_at : ℕ

pub record AuditTrail : Type 0 where
  pub records : List AuditRecord
  pub last_hash : Bytes
  pub epoch_id : ℕ
  pub epoch_start_hash : Bytes
  pub archive_dir : Bytes

-- The trail and its database, if it has one.
pub record Store : Type 0 where
  pub trail : AuditTrail
  pub db : Option (List Event)

pub data Reply : Type 0 where
  returned : Reply
  not_persisted : Reply
  is_sealed : Reply
  broken_at : ℕ → Reply

unfoldable pub new_audit_trail : Bytes → AuditTrail
new_audit_trail archive_dir = record {
  records = [];
  last_hash = [];
  epoch_id = 0;
  epoch_start_hash = [];
  archive_dir = archive_dir;
}

unfoldable pub is_empty : Bytes → Bool
is_empty [] = true
is_empty (c ∷ cs) = false

abbrev pub policy_topic : Bytes
policy_topic = codes "audit.policy"

abbrev system : Bytes
system = codes "system"

-- serializeRecord
unfoldable pub serialize_record : Codec → AuditRecord → Bytes
serialize_record k r = k.marshal (record r { record_hash = [] })

unfoldable pub hashed : Codec → AuditRecord → AuditRecord
hashed k r = record r { record_hash = k.sum (serialize_record k r) }

-- What Record sets before it looks at the database.
unfoldable pub chained : Codec → Bytes → ℕ → AuditRecord → AuditRecord
chained k last now r =
    hashed k
      (record r { prev_hash = last; timestamp = if r.timestamp == 0 then now else r.timestamp })

-- The id that Record gives to a record without one, for the database only.
unfoldable pub named : AuditRecord → AuditRecord
named r = record r {
  event_id = if is_empty r.event_id then codes "audit_" ++ decimal r.timestamp else r.event_id;
}

unfoldable pub event_of : Codec → AuditRecord → ℕ → Event
event_of k r now = record {
  id = r.event_id;
  topic = policy_topic;
  actor = if is_empty r.agent_id then system else r.agent_id;
  payload = k.marshal r;
  created_at = now;
}

unfoldable pub has_id : Bytes → List Event → Bool
has_id id [] = false
has_id id (e ∷ es) = if same_bytes e.id id then true else has_id id es

-- An INSERT into events, whose ids are UNIQUE; `up` says whether the database takes it.
unfoldable pub insert_event : Bool → Event → List Event → Option (List Event)
insert_event up e es = if up then if has_id e.id es then none else some (e ∷ es) else none
