-- ===== src/Itoa.antt =====
-- The two hand-written integer printers, itoa64 of pkg/cognition/kernel/state_machine.go and itoa
-- of internal/protocol/types.go, for i ≥ 0, and the event ids that are built with the first.
pub mod Digits
pub mod Events
mod Tests
use polarisagi_harness.StateMachine.{StateMachine}
use polarisagi_harness.Prelude.{
  ℕ, zero, suc, ◌+◌, ◌-◌, ◌/◌, ◌%◌, Option, none, some, List, [], ◌∷◌, ◌++◌, ◌==◌, if◌then◌else◌,
}

-- `var buf [12]byte`. A text is the list of its bytes.
abbrev pub buf_len : ℕ
buf_len = 12

-- `for i > 0 { pos--; buf[pos] = '0' + i%10; i /= 10 }`. The argument `pos` is the room that is
-- left; a write below index 0 panics, which is `none`. `out` is `buf[pos:]`.
pub fill_digits : ℕ → ℕ → List ℕ → Option (List ℕ)
fill_digits zero i out = if i == 0 then some out else none
fill_digits (suc pos) i out =
    let rest = fill_digits pos (i / 10) ((b'0' + i % 10) ∷ out) in if i == 0 then some out else rest

pub itoa64 : ℕ → Option (List ℕ)
itoa64 i = if i == 0 then some (b'0' ∷ []) else fill_digits buf_len i []

-- The same code, over `int`.
pub itoa : ℕ → Option (List ℕ)
itoa i = if i == 0 then some (b'0' ∷ []) else fill_digits buf_len i []

abbrev pub colon : ℕ
colon = b':'

-- `sessionID + ":" + itoa64(seq) + ":" + eventType`
pub event_id : List ℕ → List ℕ → Option (List ℕ) → Option (List ℕ)
event_id session kind none = none
event_id session kind (some ds) = some (session ++ (colon ∷ (ds ++ (colon ∷ kind))))

-- `none` for the id is the printer's panic.
pub next_event_id : StateMachine → List ℕ → List ℕ → StateMachine × Option (List ℕ)
next_event_id sm session kind =
    let seq = suc sm.event_seq in
    (record sm { event_seq = seq }, event_id session kind (itoa64 seq))
