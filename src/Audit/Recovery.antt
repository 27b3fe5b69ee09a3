-- ===== src/Audit/Recovery.antt =====
-- What a restart reads back from the table.
use mathlib.Core.List.{append-nil}
use polarisagi_harness.Prelude.{
  ℕ, zero, suc, ◌≡◌, refl, sym, ap, ◌∙◌, inl, inr, Bool, true, false, Option, none, some, List, [],
  ◌∷◌, All, All-map, Bool-cases, Option-cases, arith, ltb,
}
use polarisagi_harness.Text.{Bytes, same_bytes}
use polarisagi_harness.Text.Printed.{same_bytes_refl}
use polarisagi_harness.Audit.Records.{
  AuditRecord, Codec, Event, AuditTrail, Store, returned, new_audit_trail, is_empty, chained,
  hashed, named, event_of, policy_topic, insert_event,
}
use polarisagi_harness.Audit.Trail.{
  add_record, keep_record, store_record, append_record, verify_integrity, rotate_if_needed,
}
use polarisagi_harness.Audit.Startup.{
  newest_payloads, loaded, tail_hash, with_loaded, recover_on_startup, recovered, insert_foreign,
  Op, append, rotation, foreign, apply, run_ops,
}
use polarisagi_harness.Audit.Chain.{
  IsChain-verify, HasId, run_ops-verify, verify-IsChain, chained-named,
}
use polarisagi_harness.Audit.Readable.{is_utf8, IsEntry, IsReadable, chained-IsReadable}
use polarisagi_harness.Audit.Tamper.{take, take-IsChain}

-- The table has the trail's records, in their order, and the last of them gives the last hash.
pub record Mirrors (k : Codec) (t : AuditTrail) (es : List Event) : Type 0 where
  pub reads : (n : ℕ) → loaded k (newest_payloads n es) ≡ take n t.records
  pub last : t.last_hash ≡ tail_hash [] t.records
  pub text : is_utf8 t.last_hash ≡ true

abbrev InDb : (k : Codec) → AuditTrail → Option (List Event) → Type 0
InDb k t none = ⊥
InDb k t (some es) = Mirrors k t es

last-text :
    (k : Codec) (t : AuditTrail) (o : Option (List Event)) → InDb k t o → is_utf8 t.last_hash ≡ true
last-text k t none v = elim v [ ]
last-text k t (some es) v = v.text

reads-own :
    (k : Codec) (t : AuditTrail) (r : AuditRecord) (now n : ℕ) (es : List Event)
    → k.unmarshal (k.marshal r) ≡ some r
    → ((n : ℕ) → loaded k (newest_payloads n es) ≡ take n t.records)
    → loaded k (newest_payloads n (event_of k r now ∷ es)) ≡ take n (r ∷ t.records)
unfolding loaded newest_payloads event_of
reads-own k t r now zero es u h = refl
reads-own k t r now (suc n) es u h = rw (same_bytes_refl policy_topic, u) (ap (λ rs. r ∷ rs) (h n))

reads-foreign :
    (k : Codec) (n : ℕ) (e : Event) (es : List Event)
    → same_bytes e.topic policy_topic ≡ false
    → newest_payloads n (e ∷ es) ≡ newest_payloads n es
unfolding newest_payloads
reads-foreign k zero e es f = refl
reads-foreign k (suc n) e es f = rw f refl

pub insert_event-some :
    (up : Bool) (e : Event) (es es' : List Event) → insert_event up e es ≡ some es' → es' ≡ e ∷ es
unfolding insert_event
insert_event-some up e es es' h = ground (arith, h)

keep_record-InDb :
    (k : Codec) (s : Store) (r : AuditRecord) (e : Event) (es : List Event)
    (o : Option (List Event))
    → InDb k s.trail s.db
    → ((es' : List Event) → o ≡ some es' → es' ≡ e ∷ es)
    → Mirrors k (add_record s.trail r) (e ∷ es)
    → InDb k (keep_record s r o).0.trail (keep_record s r o).0.db
unfolding keep_record
keep_record-InDb k s r e es none v f m = v
keep_record-InDb k s r e es (some es') v f m = rw (f es' refl) m

store_record-InDb :
    (k : Codec) (up : Bool) (s : Store) (r : AuditRecord) (now : ℕ) (o : Option (List Event))
    → k.unmarshal (k.marshal r) ≡ some r
    → is_utf8 r.record_hash ≡ true
    → named r ≡ r
    → InDb k s.trail s.db
    → InDb k s.trail o
    → InDb k (store_record k up s r now o).0.trail (store_record k up s r now o).0.db
unfolding store_record tail_hash
store_record-InDb k up s r now none u x n v m = elim m [ ]
store_record-InDb k up s r now (some es) u x n v m = rw n (
    keep_record-InDb k s r (event_of k r now) es (insert_event up (event_of k r now) es) v
      (insert_event-some up (event_of k r now) es)
      (record { reads = λ i. reads-own k s.trail r now i es u m.reads; last = refl; text = x }))

insert_foreign-InDb :
    (k : Codec) (t : AuditTrail) (up : Bool) (e : Event) (o : Option (List Event))
    → same_bytes e.topic policy_topic ≡ false
    → InDb k t o
    → InDb k t (insert_foreign up e o)
unfolding insert_foreign
insert_foreign-InDb k t up e none f m = elim m [ ]
insert_foreign-InDb k t up e (some es) f m = elim (Option-cases (insert_event up e es)) [
  | inl q ↦ rw q m
  | inr (es', q) ↦
      rw (q, insert_event-some up e es es' q)
        (record {
          reads = λ i. ap (loaded k) (reads-foreign k i e es f) ∙ m.reads i;
          last = m.last;
          text = m.text;
        })
]

-- A record with an id of its own and texts of valid UTF-8, a rotation that finds nothing to do, or a row of another topic.
abbrev pub IsPlain : Op → Type 0
IsPlain (append up r now) = (is_empty r.event_id ≡ false) × IsEntry r
IsPlain (rotation a b size t u) = ltb size 100 ≡ true
IsPlain (foreign up e) = same_bytes e.topic policy_topic ≡ false

apply-InDb :
    (k : Codec)
    → ((r : AuditRecord) → IsReadable r → k.unmarshal (k.marshal r) ≡ some r)
    → ((t : Bytes) → is_utf8 (k.sum t) ≡ true)
    → (s : Store) (o : Op) → IsPlain o
    → InDb k s.trail s.db
    → InDb k (apply k s o).trail (apply k s o).db
unfolding apply append_record rotate_if_needed
apply-InDb k um hex s (append up r now) (h, e) v =
    let c = chained k s.trail.last_hash now r in
    let own : is_utf8 c.record_hash ≡ true = unfold chained hashed in hex _ in
    let readable =
      chained-IsReadable k s.trail.last_hash now r own (last-text k s.trail s.db v) e in
    store_record-InDb k up s c now s.db (um c readable) readable.own
      (chained-named k s.trail.last_hash now r h) v v
apply-InDb k um hex s (rotation a b size t u) h v = rw h v
apply-InDb k um hex s (foreign up e) h v = insert_foreign-InDb k s.trail up e s.db h v

run_ops-InDb :
    (k : Codec)
    → ((r : AuditRecord) → IsReadable r → k.unmarshal (k.marshal r) ≡ some r)
    → ((t : Bytes) → is_utf8 (k.sum t) ≡ true)
    → (s : Store) (os : List Op) → All IsPlain os
    → InDb k s.trail s.db
    → InDb k (run_ops k s os).trail (run_ops k s os).db
unfolding run_ops
run_ops-InDb k um hex s [] h v = v
run_ops-InDb k um hex s (o ∷ os) (h, hs) v =
    run_ops-InDb k um hex (apply k s o) os hs (apply-InDb k um hex s o h v)

abbrev pub on_database : Bytes → Option (List Event) → Store
on_database dir db = record { trail = new_audit_trail dir; db = db }

nothing-read : (k : Codec) (n : ℕ) → loaded k (newest_payloads n []) ≡ take n []
unfolding loaded newest_payloads
nothing-read k zero = refl
nothing-read k (suc n) = refl

new-InDb : (k : Codec) (dir : Bytes) → InDb k (new_audit_trail dir) (some [])
unfolding new_audit_trail loaded newest_payloads tail_hash is_utf8
new-InDb k dir = record { reads = nothing-read k; last = refl; text = refl }

IsPlain-HasId : (o : Op) → IsPlain o → HasId o
IsPlain-HasId (append up r now) h = h.0
IsPlain-HasId (rotation a b size t u) h = tt
IsPlain-HasId (foreign up e) h = tt

tail_hash-take : (n : ℕ) (rs : List AuditRecord) → tail_hash [] (take (suc n) rs) ≡ tail_hash [] rs
unfolding tail_hash
tail_hash-take n [] = refl
tail_hash-take n (r ∷ rs) = refl

recovers_lem :
    (k : Codec) (dir : Bytes) (t : AuditTrail) (es : List Event)
    → Mirrors k t es
    → verify_integrity k t.records ≡ none
    → recovered k
        (on_database dir (some es))
        (with_loaded (new_audit_trail dir) (loaded k (newest_payloads 100 es)))
      ≡ (
        record {
          trail = record (new_audit_trail dir) {
            records = take 100 t.records;
            last_hash = t.last_hash;
          };
          db = some es;
        },
        returned,
      )
unfolding with_loaded new_audit_trail
recovers_lem k dir t es m v =
    let rs = take 100 t.records in
    let c = IsChain-verify k rs (take-IsChain k 100 t.records (verify-IsChain k t.records v)) in
    rw (m.reads 100, append-nil rs, c, tail_hash-take 99 t.records, sym m.last) refl

recovers :
    (k : Codec) (dir : Bytes) (t : AuditTrail) (o : Option (List Event))
    → InDb k t o
    → verify_integrity k t.records ≡ none
    → recover_on_startup k false true (on_database dir o) ≡ (
      record {
        trail = record (new_audit_trail dir) {
          records = take 100 t.records;
          last_hash = t.last_hash;
        };
        db = o;
      },
      returned,
    )
unfolding recover_on_startup new_audit_trail
recovers k dir t none m v = elim m [ ]
recovers k dir t (some es) m v = elim (Bool-cases (is_empty dir)) [
  | inl e ↦ rw e (recovers_lem k dir t es m v)
  | inr e ↦ rw e (recovers_lem k dir t es m v)
]

-- If JSON reads back each record with texts of valid UTF-8, and hashes are printed in such: on an empty
-- table, whatever records with ids of their own and texts of valid UTF-8 are made, whichever of them
-- the database refuses, and whatever other rows come in between: as long as no rotation is due, a
-- restart finds the newest hundred records, as they were, and goes on from the same hash.
pub recover_exact :
    (k : Codec)
    → ((r : AuditRecord) → IsReadable r → k.unmarshal (k.marshal r) ≡ some r)
    → ((t : Bytes) → is_utf8 (k.sum t) ≡ true)
    → (dir : Bytes) (os : List Op) → All IsPlain os
    → let s = run_ops k (on_database dir (some [])) os in
      recover_on_startup k false true (on_database dir s.db) ≡ (
        record {
          trail = record (new_audit_trail dir) {
            records = take 100 s.trail.records;
            last_hash = s.trail.last_hash;
          };
          db = s.db;
        },
        returned,
      )
recover_exact k um hex dir os h =
    let s = run_ops k (on_database dir (some [])) os in
    recovers k dir s.trail s.db
      (run_ops-InDb k um hex (on_database dir (some [])) os h (new-InDb k dir))
      (run_ops-verify k dir (some []) os (All-map _ _ os IsPlain-HasId h))
