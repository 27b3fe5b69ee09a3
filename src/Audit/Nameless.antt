-- ===== src/Audit/Nameless.antt =====
-- Records that come without an id of their own.
use polarisagi_harness.Prelude.{ℕ, suc, ◌≡◌, ◌⊎◌, true, false, Option, none, some, List, [], ◌∷◌}
use polarisagi_harness.Text.{same_bytes}
use polarisagi_harness.Audit.Records.{AuditRecord, Codec, Event, policy_topic}
use polarisagi_harness.Audit.Trail.{is_intact}

-- One of the newest `n` rows is a record whose hash is not its own.
pub data Broken (k : Codec) : ℕ → List Event → Type 0 where
  here :
      (n : ℕ) (e : Event) (es : List Event) (r : AuditRecord)
      → same_bytes e.topic policy_topic ≡ true
      → k.unmarshal e.payload ≡ some r
      → is_intact k r ≡ false
      → Broken k (suc n) (e ∷ es)
  older : (n : ℕ) (e : Event) (es : List Event) → Broken k n es → Broken k (suc n) (e ∷ es)

abbrev IsFaulty : Codec → List AuditRecord → Type 0
IsFaulty k [] = ⊥
IsFaulty k (r ∷ rs) = (is_intact k r ≡ false) ⊎ IsFaulty k rs

abbrev InDb : Codec → ℕ → Option (List Event) → Type 0
InDb k n none = ⊥
InDb k n (some es) = Broken k n es

abbrev NoCollision : Codec → Type 0
NoCollision k = (a b : AuditRecord) → k.sum (k.marshal a) ≡ k.sum (k.marshal b) → a ≡ b
