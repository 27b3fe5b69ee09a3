-- ===== src/Audit/Tamper.antt =====
-- What the hashes of a chain pin down.
use polarisagi_harness.Prelude.{
  ℕ, zero, suc, ◌-◌, ◌≤◌, ◌≡◌, refl, sym, ap, ◌∙◌, true, none, List, [], ◌∷◌, arith, length, All,
}
use polarisagi_harness.Text.Printed.{same_bytes→eq}
use polarisagi_harness.Audit.Records.{AuditRecord, Codec, serialize_record}
use polarisagi_harness.Audit.Trail.{is_linked, is_intact, verify_integrity}
use polarisagi_harness.Audit.Startup.{tail_hash}
use polarisagi_harness.Audit.Chain.{IsChain, verify-IsChain, IsChain-verify}
use polarisagi_harness.Audit.Readable.{IsReadable, bare-IsReadable}

abbrev pub take : ℕ → List AuditRecord → List AuditRecord
take zero rs = []
take (suc n) [] = []
take (suc n) (r ∷ rs) = r ∷ take n rs

same_record :
    (k : Codec) (r q : AuditRecord)
    → ((a b : AuditRecord)
        → IsReadable a
        → IsReadable b
        → k.sum (k.marshal a) ≡ k.sum (k.marshal b)
        → a ≡ b)
    → IsReadable r
    → IsReadable q
    → is_intact k r ≡ true
    → is_intact k q ≡ true
    → r.record_hash ≡ q.record_hash
    → r ≡ q
unfolding is_intact serialize_record
same_record k r q c x y i j h =
    let e =
      same_bytes→eq (k.sum (serialize_record k r)) r.record_hash i
      ∙ h
      ∙ sym (same_bytes→eq (k.sum (serialize_record k q)) q.record_hash j) in
    let b : record r { record_hash = [] } ≡ record q { record_hash = [] } =
      c (record r { record_hash = [] }) (record q { record_hash = [] }) (bare-IsReadable r x)
        (bare-IsReadable q y) e in
    λ i. record (b i) { record_hash = h i }

linked_tail :
    (r q : AuditRecord) (rs qs : List AuditRecord) (n : ℕ)
    → r ≡ q
    → is_linked r rs ≡ true
    → is_linked q qs ≡ true
    → suc n ≤ length rs
    → suc n ≤ length qs
    → tail_hash [] rs ≡ tail_hash [] qs
unfolding is_linked tail_hash
linked_tail r q [] qs n e l m a b = ground (arith, a)
linked_tail r q (x ∷ rs) [] n e l m a b = ground (arith, b)
linked_tail r q (x ∷ rs) (y ∷ qs) n e l m a b =
    sym (same_bytes→eq r.prev_hash x.record_hash l)
    ∙ ap (λ (z : AuditRecord). z.prev_hash) e
    ∙ same_bytes→eq q.prev_hash y.record_hash m

chain_rest :
    (k : Codec)
    → ((a b : AuditRecord)
        → IsReadable a
        → IsReadable b
        → k.sum (k.marshal a) ≡ k.sum (k.marshal b)
        → a ≡ b)
    → (n : ℕ) (rs qs : List AuditRecord) → All IsReadable rs
    → All IsReadable qs
    → IsChain k rs
    → IsChain k qs
    → (1 ≤ n → tail_hash [] rs ≡ tail_hash [] qs)
    → n ≤ length rs
    → n ≤ length qs
    → take n rs ≡ take n qs
unfolding tail_hash
chain_rest k c zero rs qs x y v w h a b = refl
chain_rest k c (suc n) [] qs x y v w h a b = ground (arith, a)
chain_rest k c (suc n) (r ∷ rs) [] x y v w h a b = ground (arith, b)
chain_rest k c (suc n) (r ∷ rs) (q ∷ qs) (x, xs) (y, ys) (l, i, v) (m, j, w) h a b =
    let e = same_record k r q c x y i j (h (omega arith)) in
    let rest =
      chain_rest k c n rs qs xs ys v w
        (λ p. linked_tail r q rs qs (n - 1) e l m (omega (arith, a, p)) (omega (arith, b, p)))
        (omega (arith, a)) (omega (arith, b)) in
    λ i. e i ∷ rest i

take-linked :
    (n : ℕ) (r : AuditRecord) (rs : List AuditRecord)
    → is_linked r rs ≡ true
    → is_linked r (take n rs) ≡ true
unfolding is_linked
take-linked zero r rs l = refl
take-linked (suc n) r [] l = refl
take-linked (suc n) r (q ∷ rs) l = l

pub take-IsChain :
    (k : Codec) (n : ℕ) (rs : List AuditRecord) → IsChain k rs → IsChain k (take n rs)
take-IsChain k zero rs c = tt
take-IsChain k (suc n) [] c = tt
take-IsChain k (suc n) (r ∷ rs) (l, i, c) = (take-linked n r rs l, i, take-IsChain k n rs c)

-- If no two records with texts of valid UTF-8 have the same hash: two chains of such records that pass
-- VerifyIntegrity and end in the same hash agree, record by record, as far back as both go. But that is
-- all: VerifyIntegrity passes as well when only the newest n records are left, for every n.
pub chain_unique :
    (k : Codec)
    → ((a b : AuditRecord)
        → IsReadable a
        → IsReadable b
        → k.sum (k.marshal a) ≡ k.sum (k.marshal b)
        → a ≡ b)
    → (rs qs : List AuditRecord) → All IsReadable rs
    → All IsReadable qs
    → verify_integrity k rs ≡ none
    → verify_integrity k qs ≡ none
    → tail_hash [] rs ≡ tail_hash [] qs
    → (n : ℕ) → n ≤ length rs
    → n ≤ length qs
    → (take n rs ≡ take n qs) × (verify_integrity k (take n rs) ≡ none)
chain_unique k c rs qs x y v w h n a b =
    let whole = verify-IsChain k rs v in
    (
      chain_rest k c n rs qs x y whole (verify-IsChain k qs w) (λ p. h) a b,
      IsChain-verify k (take n rs) (take-IsChain k n rs whole),
    )
