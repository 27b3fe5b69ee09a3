-- ===== src/Executor/Retry/Tests.antt =====
-- A node whose tool fails once and then succeeds.
use polarisagi_harness.Prelude.{ℕ, zero, suc, ◌≡◌, refl, false, some, [], ◌∷◌}
use polarisagi_harness.Executor.Retry.{Call, error, result, World, backoff}

abbrev once_failing : ℕ → Call
once_failing zero = error "busy"
once_failing (suc k) = result false (some (b'x' ∷ []))

abbrev flaky : World
flaky = record { is_replaying = false; done_before = λ _. false; call = once_failing }

-- In int64 the wait before attempt 34 is negative: its bit pattern is above 2^63.
backoff_overflows : backoff 34 ≡ 17_179_869_184_000_000_000
unfolding backoff
backoff_overflows = refl
