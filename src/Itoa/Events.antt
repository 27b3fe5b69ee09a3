-- ===== src/Itoa/Events.antt =====
-- nextEventID of pkg/cognition/kernel/state_machine.go.
use polarisagi_harness.Prelude.{ℕ, suc, ◌<◌, ◌≡◌, refl, ap, some, List, [], ◌∷◌, ◌++◌, arith, All}
use polarisagi_harness.StateMachine.{StateMachine}
use polarisagi_harness.Itoa.{buf_len, colon, event_id, next_event_id}
use polarisagi_harness.Itoa.Digits.{IsDigit, pow10, read, itoa64-read}

append_cancel : (s xs ys : List ℕ) → (s ++ xs) ≡ (s ++ ys) → xs ≡ ys
append_cancel [] xs ys e = e
append_cancel (c ∷ s) xs ys e = append_cancel s xs ys (cc)

-- Digits hold no colon, so the part before the first colon is determined.
digits_split :
    (ds es k l : List ℕ)
    → All IsDigit ds
    → All IsDigit es
    → (ds ++ (colon ∷ k)) ≡ (es ++ (colon ∷ l))
    → (ds ≡ es) × (k ≡ l)
digits_split [] [] k l a b e = (refl, cc)
digits_split [] (y ∷ es) k l a b e = absurd (ground (arith, b.0))
digits_split (x ∷ ds) [] k l a b e = absurd (ground (arith, a.0))
digits_split (x ∷ ds) (y ∷ es) k l a b e =
    let (p, q) = digits_split ds es k l a.1 b.1 (cc) in (cc, q)

event_id_split :
    (session kind kind' ds es x : List ℕ)
    → All IsDigit ds
    → All IsDigit es
    → event_id session kind (some ds) ≡ some x
    → event_id session kind' (some es) ≡ some x
    → (ds ≡ es) × (kind ≡ kind')
unfolding event_id
event_id_split session kind kind' ds es x a b p q = digits_split ds es kind kind' a b (
    cc (
      append_cancel session (colon ∷ (ds ++ (colon ∷ kind))) (colon ∷ (es ++ (colon ∷ kind')))
        (cc)))

-- Two events of one session with the same id have the same number and the same type: ids made at
-- different numbers below 10^12 differ.
pub next_event_id-injective :
    (sm sn : StateMachine) (session kind kind' : List ℕ) (x : List ℕ)
    → suc sm.event_seq < pow10 buf_len
    → suc sn.event_seq < pow10 buf_len
    → (next_event_id sm session kind).1 ≡ some x
    → (next_event_id sn session kind').1 ≡ some x
    → (sm.event_seq ≡ sn.event_seq) × (kind ≡ kind')
unfolding next_event_id
next_event_id-injective sm sn session kind kind' x h k p q =
    let (ds, e, e', r, a) = itoa64-read (suc sm.event_seq) h in
    let (es, f, f', s, b) = itoa64-read (suc sn.event_seq) k in
    let (u, v) = event_id_split session kind kind' ds es x a b (rw e at p) (rw f at q) in
    (omega (arith, ap (read 0) u), v)
