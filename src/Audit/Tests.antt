-- ===== src/Audit/Tests.antt =====
-- A text of records that can be read back, and the theorems at work on trails that use it.
use polarisagi_harness.Prelude.{
  ℕ, zero, suc, ◌≡◌, refl, sym, ap, ◌∙◌, Bool, true, false, Option, none, some, List, [], ◌∷◌, ◌++◌,
  arith, map, All, ◌≤◌, ◌+◌, ◌%◌,
}
use polarisagi_harness.Text.{Bytes, codes, same_bytes, decimal, decimal_from}
use polarisagi_harness.Audit.Records.{
  AuditRecord, Codec, Store, returned, broken_at, new_audit_trail, is_empty, serialize_record,
  hashed, chained, named, event_of, insert_event, has_id,
}
use polarisagi_harness.Audit.Trail.{
  keep_record, store_record, append_record, is_linked, is_intact, verify_integrity, epoch_record,
  epoch_end, epoch_start, try_insert, rotate, rotate_if_needed,
}
use polarisagi_harness.Audit.Startup.{
  tail_hash, newest_payloads, loaded, with_loaded, recover_on_startup, insert_foreign, Op, append,
  rotation, foreign, apply, run_ops,
}
use polarisagi_harness.Audit.Readable.{
  is_utf8, is_utf8-ascii, IsEntry, IsReadable, chained-IsReadable,
}
use polarisagi_harness.Audit.Chain.{run_ops-verify}
use polarisagi_harness.Audit.Tamper.{take, chain_unique}
use polarisagi_harness.Audit.Recovery.{on_database, recover_exact}

-- Fields follow each other, each ended by a 0.
abbrev put : Bytes → Bytes → Bytes
put [] rest = 0 ∷ rest
put (c ∷ cs) rest = suc c ∷ put cs rest

abbrev put_all : List Bytes → Bytes
put_all [] = []
put_all (f ∷ fs) = put f (put_all fs)

abbrev on_first : ℕ → List Bytes → List Bytes
on_first c [] = (c ∷ []) ∷ []
on_first c (p ∷ ps) = (c ∷ p) ∷ ps

abbrev parts : Bytes → List Bytes
parts [] = []
parts (zero ∷ cs) = [] ∷ parts cs
parts (suc c ∷ cs) = on_first c (parts cs)

parts-put : (f cs : Bytes) → parts (put f cs) ≡ f ∷ parts cs
parts-put [] cs = refl
parts-put (c ∷ f) cs = ap (on_first c) (parts-put f cs)

parts-put_all : (fs : List Bytes) → parts (put_all fs) ≡ fs
parts-put_all [] = refl
parts-put_all (f ∷ fs) =
    parts-put f (put_all fs) ∙ ap (λ (x : List Bytes). f ∷ x) (parts-put_all fs)

abbrev bit : Bool → ℕ
bit true = 1
bit false = 0

abbrev fields : AuditRecord → List Bytes
fields r =
    r.event_id
    ∷ (r.timestamp ∷ [])
    ∷ r.agent_id
    ∷ r.session_id
    ∷ r.action_type
    ∷ r.action_detail
    ∷ (r.trust_level ∷ [])
    ∷ r.authorization
    ∷ r.cap_token_id
    ∷ r.outcome
    ∷ r.deny_reason
    ∷ (bit r.pii_detected ∷ [])
    ∷ r.prev_hash
    ∷ r.record_hash
    ∷ r.data_subjects

abbrev is_one : ℕ → Bool
is_one zero = false
is_one (suc n) = true

abbrev from_fields : List Bytes → Option AuditRecord
from_fields
      (e ∷ (t ∷ []) ∷ a ∷ s ∷ ty ∷ de ∷ (tr ∷ []) ∷ au ∷ ca ∷ ou ∷ dr ∷ (pii ∷ []) ∷ ph ∷ rh ∷ ds) =
    some (record {
      event_id = e;
      timestamp = t;
      agent_id = a;
      session_id = s;
      action_type = ty;
      action_detail = de;
      trust_level = tr;
      authorization = au;
      cap_token_id = ca;
      outcome = ou;
      deny_reason = dr;
      data_subjects = ds;
      pii_detected = is_one pii;
      prev_hash = ph;
      record_hash = rh;
    })
from_fields _ = none

is_one-bit : (b : Bool) → is_one (bit b) ≡ b
is_one-bit true = refl
is_one-bit false = refl

from_fields_lem : (r : AuditRecord) → from_fields (fields r) ≡ some r
from_fields_lem r =
    ap (λ (b : Bool). some (record r { pii_detected = b })) (is_one-bit r.pii_detected)

abbrev sample : Codec
sample = record {
  sum = λ t. t;
  marshal = λ r. put_all (fields r);
  unmarshal = λ t. from_fields (parts t);
  end_detail = λ e n h. e ∷ n ∷ h;
  start_detail = λ e h. e ∷ h;
}

sample_reads : (r : AuditRecord) → sample.unmarshal (sample.marshal r) ≡ some r
sample_reads r = ap from_fields (parts-put_all (fields r)) ∙ from_fields_lem r

sample_differs :
    (a b : AuditRecord) → sample.sum (sample.marshal a) ≡ sample.sum (sample.marshal b) → a ≡ b
sample_differs a b e = let p = sym (sample_reads a) ∙ ap sample.unmarshal e ∙ sample_reads b in cc

abbrev entry : Bytes → AuditRecord
entry id = record {
  event_id = id;
  timestamp = 0;
  agent_id = codes "a";
  session_id = [];
  action_type = codes "act";
  action_detail = [];
  trust_level = 1;
  authorization = [];
  cap_token_id = [];
  outcome = codes "allow";
  deny_reason = [];
  data_subjects = [];
  pii_detected = false;
  prev_hash = [];
  record_hash = [];
}

abbrev dir : Bytes
dir = codes "archive"

-- A record, one that the database refuses since its id is taken, a row of others, and a record.
abbrev day : List Op
day =
    append true (entry (codes "e1")) 5
    ∷ append true (entry (codes "e1")) 6
    ∷ foreign true
        (record { id = codes "x"; topic = codes "t"; actor = []; payload = []; created_at = 6 })
    ∷ append true (entry (codes "e2")) 7
    ∷ []

-- A checksum that is printed in digits.
abbrev digit : ℕ → ℕ
digit c = 48 + c % 10

abbrev printed : Codec
printed = record sample { sum = map digit }

digits_are_low : (t : Bytes) → All (λ (c : ℕ). c ≤ 127) (map digit t)
digits_are_low [] = tt
digits_are_low (c ∷ t) = (omega arith, digits_are_low t)

printed_is_utf8 : (t : Bytes) → is_utf8 (map digit t) ≡ true
printed_is_utf8 t = is_utf8-ascii (map digit t) (digits_are_low t)

entry-IsEntry : (id : Bytes) → is_utf8 id ≡ true → IsEntry (entry id)
unfolding is_utf8
entry-IsEntry id e = record {
  event_id = e;
  agent_id = refl;
  session_id = refl;
  action_type = refl;
  authorization = refl;
  cap_token_id = refl;
  outcome = refl;
  deny_reason = refl;
  data_subjects = tt;
}

recover_exact_example :
    let s = run_ops printed (on_database dir (some [])) day in
    recover_on_startup printed false true (on_database dir s.db) ≡ (
      record {
        trail = record (new_audit_trail dir) {
          records = take 100 s.trail.records;
          last_hash = s.trail.last_hash;
        };
        db = s.db;
      },
      returned,
    )
unfolding is_empty same_bytes is_utf8
recover_exact_example =
    recover_exact printed (λ r v. sample_reads r) printed_is_utf8 dir day
      (
        (refl, entry-IsEntry (codes "e1") refl),
        (
          (refl, entry-IsEntry (codes "e1") refl),
          (refl, ((refl, entry-IsEntry (codes "e2") refl), tt)),
        ),
      )

abbrev used : Store
used = run_ops sample (on_database dir (some [])) (day ++ rotation true true 100 8 9 ∷ [])

run_ops-verify_example : verify_integrity sample used.trail.records ≡ none
unfolding is_empty
run_ops-verify_example =
    run_ops-verify sample dir (some []) (day ++ rotation true true 100 8 9 ∷ [])
      (refl, (refl, (tt, (refl, (tt, tt)))))

abbrev short_chain : List AuditRecord
short_chain = (run_ops sample (on_database dir none) day).trail.records

-- The chain without its first record.
abbrev cut : List AuditRecord
cut = take 2 short_chain

abbrev one : AuditRecord
one = chained sample [] 5 (entry (codes "e1"))

abbrev two : AuditRecord
two = chained sample one.record_hash 6 (entry (codes "e1"))

abbrev three : AuditRecord
three = chained sample two.record_hash 7 (entry (codes "e2"))

one-IsReadable : IsReadable one
unfolding is_utf8 chained hashed serialize_record
one-IsReadable =
    chained-IsReadable sample [] 5 (entry (codes "e1")) refl refl (entry-IsEntry (codes "e1") refl)

two-IsReadable : IsReadable two
unfolding is_utf8 chained hashed serialize_record
two-IsReadable =
    chained-IsReadable sample one.record_hash 6 (entry (codes "e1")) refl refl
      (entry-IsEntry (codes "e1") refl)

three-IsReadable : IsReadable three
unfolding is_utf8 chained hashed serialize_record
three-IsReadable =
    chained-IsReadable sample two.record_hash 7 (entry (codes "e2")) refl refl
      (entry-IsEntry (codes "e2") refl)

chain_unique_example :
    (take 2 short_chain ≡ take 2 cut) × (verify_integrity sample (take 2 short_chain) ≡ none)
unfolding run_ops apply append_record store_record chained hashed serialize_record new_audit_trail
    tail_hash verify_integrity is_linked is_intact same_bytes insert_foreign
chain_unique_example =
    chain_unique sample (λ a b v w e. sample_differs a b e) short_chain cut
      (three-IsReadable, (two-IsReadable, (one-IsReadable, tt)))
      (three-IsReadable, (two-IsReadable, tt)) refl refl refl 2 (omega arith) (omega arith)

-- The epochs of a new process count from 0 again, so its first marks have ids that are taken: the
-- inserts fail unnoticed, and the start after that is refused.
abbrev after_restart : Store
after_restart =
    (recover_on_startup sample false true (
      on_database dir
        (run_ops sample (on_database dir (some [])) (rotation true true 100 1 2 ∷ [])).db)).0

marks_are_lost :
    (recover_on_startup sample false true (
      on_database dir
        (run_ops sample after_restart
          (rotation true true 100 3 4 ∷ append true (entry (codes "e")) 5 ∷ [])).db)).1
    ≡ broken_at 2
unfolding run_ops apply rotate_if_needed rotate append_record store_record chained hashed
    serialize_record new_audit_trail tail_hash verify_integrity is_linked is_intact same_bytes
    epoch_end epoch_start epoch_record try_insert insert_event has_id event_of named is_empty
    keep_record recover_on_startup with_loaded loaded newest_payloads decimal decimal_from
marks_are_lost = refl
