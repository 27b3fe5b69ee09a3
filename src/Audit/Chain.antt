-- ===== src/Audit/Chain.antt =====
-- The chain in memory: every operation keeps it whole, and the check finds it so.
use polarisagi_harness.Prelude.{
  ℕ, ◌≡◌, refl, ap, ◌∙◌, inl, inr, Bool, true, false, Option, none, some, List, [], ◌∷◌, All,
  Bool-cases, Option-cases, arith, ltb,
}
use polarisagi_harness.Text.{Bytes, same_bytes}
use polarisagi_harness.Text.Printed.{same_bytes_refl}
use polarisagi_harness.Audit.Records.{
  AuditRecord, Codec, Event, AuditTrail, Store, new_audit_trail, is_empty, serialize_record, hashed,
  chained, named, event_of, insert_event,
}
use polarisagi_harness.Audit.Trail.{
  add_record, keep_record, store_record, append_record, is_linked, is_intact, verify_integrity,
  epoch_record, epoch_start, rotate, rotate_if_needed,
}
use polarisagi_harness.Audit.Startup.{tail_hash, Op, append, rotation, foreign, apply, run_ops}

-- Each record names the hash of the one before it and carries its own.
abbrev pub IsChain : Codec → List AuditRecord → Type 0
IsChain k [] = Unit
IsChain k (r ∷ rs) = (is_linked r rs ≡ true) × (is_intact k r ≡ true) × IsChain k rs

pub IsChain-verify :
    (k : Codec) (rs : List AuditRecord) → IsChain k rs → verify_integrity k rs ≡ none
unfolding verify_integrity
IsChain-verify k [] c = refl
IsChain-verify k (r ∷ rs) (l, i, c) = rw (IsChain-verify k rs c, l, i) refl

pub verify-IsChain :
    (k : Codec) (rs : List AuditRecord) → verify_integrity k rs ≡ none → IsChain k rs
unfolding verify_integrity
verify-IsChain k [] e = tt
verify-IsChain k (r ∷ rs) e = elim (Option-cases (verify_integrity k rs)) [
  | inl n ↦ (ground (arith, e, n), ground (arith, e, n), verify-IsChain k rs n)
  | inr (i, q) ↦ ground (arith, e, q)
]

pub hashed-IsIntact : (k : Codec) (r : AuditRecord) → is_intact k (hashed k r) ≡ true
unfolding is_intact hashed serialize_record
hashed-IsIntact k r = same_bytes_refl _

pub named_lem : (r : AuditRecord) → is_empty r.event_id ≡ false → named r ≡ r
unfolding named
named_lem r e = rw e refl

pub chained-named :
    (k : Codec) (last : Bytes) (now : ℕ) (r : AuditRecord)
    → is_empty r.event_id ≡ false
    → named (chained k last now r) ≡ chained k last now r
unfolding chained hashed
chained-named k last now r e = named_lem (chained k last now r) e

-- The last hash is the one of the newest record.
pub record Inv (k : Codec) (t : AuditTrail) : Type 0 where
  pub whole : IsChain k t.records
  pub ends : t.last_hash ≡ tail_hash t.last_hash t.records

is_linked-tail :
    (h : Bytes) (r : AuditRecord) (rs : List AuditRecord)
    → r.prev_hash ≡ h
    → h ≡ tail_hash h rs
    → is_linked r rs ≡ true
unfolding is_linked tail_hash
is_linked-tail h r [] p e = refl
is_linked-tail h r (q ∷ rs) p e =
    ap (λ x. same_bytes x q.record_hash) (p ∙ e) ∙ same_bytes_refl q.record_hash

pub add_record-Inv :
    (k : Codec) (t : AuditTrail) (r : AuditRecord)
    → r.prev_hash ≡ t.last_hash
    → is_intact k r ≡ true
    → Inv k t
    → Inv k (add_record t r)
unfolding tail_hash
add_record-Inv k t r p i v = record {
  whole = (is_linked-tail t.last_hash r t.records p v.ends, i, v.whole);
  ends = refl;
}

chained-Inv :
    (k : Codec) (t : AuditTrail) (now : ℕ) (r : AuditRecord)
    → Inv k t
    → Inv k (add_record t (chained k t.last_hash now r))
chained-Inv k t now r v =
    add_record-Inv k t (chained k t.last_hash now r) (unfold chained hashed in refl)
      (unfold chained in hashed-IsIntact k _) v

keep_record-Inv :
    (k : Codec) (s : Store) (r : AuditRecord) (o : Option (List Event))
    → Inv k s.trail
    → Inv k (add_record s.trail r)
    → Inv k (keep_record s r o).0.trail
unfolding keep_record
keep_record-Inv k s r none v w = v
keep_record-Inv k s r (some es) v w = w

store_record-Inv :
    (k : Codec) (up : Bool) (s : Store) (r : AuditRecord) (now : ℕ) (o : Option (List Event))
    → named r ≡ r
    → Inv k s.trail
    → Inv k (add_record s.trail r)
    → Inv k (store_record k up s r now o).0.trail
unfolding store_record
store_record-Inv k up s r now none n v w = w
store_record-Inv k up s r now (some es) n v w =
    keep_record-Inv k s (named r) (insert_event up (event_of k (named r) now) es) v (rw n w)

pub rotate-Inv : (k : Codec) (a b : Bool) (s : Store) (t u : ℕ) → Inv k (rotate k a b s t u).trail
unfolding rotate epoch_start epoch_record tail_hash is_linked
rotate-Inv k a b s t u = record { whole = (refl, hashed-IsIntact k _, tt); ends = refl }

-- Every record comes with an id of its own.
abbrev pub HasId : Op → Type 0
HasId (append up r now) = is_empty r.event_id ≡ false
HasId (rotation a b size t u) = Unit
HasId (foreign up e) = Unit

apply-Inv : (k : Codec) (s : Store) (o : Op) → HasId o → Inv k s.trail → Inv k (apply k s o).trail
unfolding apply append_record rotate_if_needed
apply-Inv k s (append up r now) h v =
    store_record-Inv k up s (chained k s.trail.last_hash now r) now s.db
      (chained-named k s.trail.last_hash now r h) v (chained-Inv k s.trail now r v)
apply-Inv k s (rotation a b size t u) h v = elim (Bool-cases (ltb size 100)) [
  | inl e ↦ rw e v
  | inr e ↦ rw e (rotate-Inv k a b s t u)
]
apply-Inv k s (foreign up e) h v = v

run_ops-Inv :
    (k : Codec) (s : Store) (os : List Op)
    → All HasId os
    → Inv k s.trail
    → Inv k (run_ops k s os).trail
unfolding run_ops
run_ops-Inv k s [] h v = v
run_ops-Inv k s (o ∷ os) (h, hs) v = run_ops-Inv k (apply k s o) os hs (apply-Inv k s o h v)

new-Inv : (k : Codec) (dir : Bytes) → Inv k (new_audit_trail dir)
unfolding new_audit_trail tail_hash
new-Inv k dir = record { whole = tt; ends = refl }

-- Whatever is recorded on a new trail, each record with an id, whichever inserts the database refuses,
-- and whenever epochs are rotated: VerifyIntegrity finds the chain whole.
pub run_ops-verify :
    (k : Codec) (dir : Bytes) (db : Option (List Event)) (os : List Op)
    → All HasId os
    → verify_integrity k
        (run_ops k (record { trail = new_audit_trail dir; db = db }) os).trail.records
      ≡ none
run_ops-verify k dir db os h =
    let s : Store = record { trail = new_audit_trail dir; db = db } in
    IsChain-verify k (run_ops k s os).trail.records (run_ops-Inv k s os h (new-Inv k dir)).whole
