-- ===== src/Audit/Startup.antt =====
-- RecoverOnStartup, and the trail in use.
use polarisagi_harness.Prelude.{
  ℕ, zero, suc, Bool, not, ◌&&◌, Option, none, some, List, [], ◌∷◌, ◌++◌, if◌then◌else◌,
}
use polarisagi_harness.Text.{Bytes, same_bytes}
use polarisagi_harness.Audit.Records.{
  AuditRecord, Codec, Event, AuditTrail, Store, Reply, returned, is_sealed, broken_at, is_empty,
  policy_topic, insert_event,
}
use polarisagi_harness.Audit.Trail.{
  append_record, verify_integrity, unless_refused, rotate_if_needed,
}

-- The query of RecoverOnStartup: at most `n` payloads of the trail's rows, the newest first.
unfoldable pub newest_payloads : ℕ → List Event → List Bytes
newest_payloads zero es = []
newest_payloads (suc n) [] = []
newest_payloads (suc n) (e ∷ es) =
    let skip = newest_payloads (suc n) es in
    let take = e.payload ∷ newest_payloads n es in
    if same_bytes e.topic policy_topic then take else skip

abbrev pub and_record : Option AuditRecord → List AuditRecord → List AuditRecord
and_record none rs = rs
and_record (some r) rs = r ∷ rs

-- A payload that is no record is passed over.
unfoldable pub loaded : Codec → List Bytes → List AuditRecord
loaded k [] = []
loaded k (p ∷ ps) = and_record (k.unmarshal p) (loaded k ps)

unfoldable pub tail_hash : Bytes → List AuditRecord → Bytes
tail_hash last [] = last
tail_hash last (r ∷ rs) = r.record_hash

unfoldable pub with_loaded : AuditTrail → List AuditRecord → AuditTrail
with_loaded t rs = record t { records = rs ++ t.records; last_hash = tail_hash t.last_hash rs }

abbrev pub verdict : Option ℕ → Reply
verdict none = returned
verdict (some i) = broken_at i

abbrev pub recovered : Codec → Store → AuditTrail → Store × Reply
recovered k s t = (record s { trail = t }, verdict (verify_integrity k t.records))

abbrev recover_from : Codec → Bool → Store → Option (List Event) → Store × Reply
recover_from k up s none = (s, returned)
recover_from k up s (some es) =
    if up
    then recovered k s (with_loaded s.trail (loaded k (newest_payloads 100 es)))
    else (s, returned)

-- RecoverOnStartup; `fullstop` says whether the file .fullstop is there, `up` whether the query is
-- answered.
unfoldable pub recover_on_startup : Codec → Bool → Bool → Store → Store × Reply
recover_on_startup k fullstop up s =
    if not (is_empty s.trail.archive_dir) && fullstop
    then (s, is_sealed)
    else recover_from k up s s.db

-- The trail in use: records, rotations, and rows that others write into events.
pub data Op : Type 0 where
  append : Bool → AuditRecord → ℕ → Op
  rotation : Bool → Bool → ℕ → ℕ → ℕ → Op
  foreign : Bool → Event → Op

unfoldable pub insert_foreign : Bool → Event → Option (List Event) → Option (List Event)
insert_foreign up e none = none
insert_foreign up e (some es) = some (unless_refused es (insert_event up e es))

unfoldable pub apply : Codec → Store → Op → Store
apply k s (append up r now) = (append_record k up s r now).0
apply k s (rotation up_end up_start size_mb now_end now_start) =
    rotate_if_needed k up_end up_start s size_mb now_end now_start
apply k s (foreign up e) = record s { db = insert_foreign up e s.db }

unfoldable pub run_ops : Codec → Store → List Op → Store
run_ops k s [] = s
run_ops k s (o ∷ os) = run_ops k (apply k s o) os
