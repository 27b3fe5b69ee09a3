-- ===== src/Itoa/Tests.antt =====
-- The printers at numbers, and their theorems there.
use polarisagi_harness.Prelude.{ℕ, ◌≡◌, refl, none, some, List, [], ◌∷◌}
use polarisagi_harness.Protocol.{idle}
use polarisagi_harness.StateMachine.{StateMachine}
use polarisagi_harness.Itoa.{fill_digits, itoa64}

prints_2048 : itoa64 2048 ≡ some (b'2' ∷ b'0' ∷ b'4' ∷ b'8' ∷ [])
unfolding itoa64 fill_digits
prints_2048 = refl

overflows : itoa64 1_000_000_000_000 ≡ none
unfolding itoa64 fill_digits
overflows = refl

abbrev at_event : ℕ → StateMachine
at_event n = record {
  current = idle;
  transitions = [];
  history = [];
  replan_count = 0;
  event_seq = n;
  started_at = 0;
  interrupt_from = idle;
}

-- `s:7:p`
abbrev seventh : List ℕ
seventh = b's' ∷ b':' ∷ b'7' ∷ b':' ∷ b'p' ∷ []
