-- ===== src/Breaker.antt =====
-- pkg/substrate/fallback.go: the circuit breaker and the fallback chain that asks it. A clock
-- reading is an argument, durations are in its unit. A provider is what IsAvailable answers. The
-- float health score is left out.
mod Laws
mod Tests
use polarisagi_harness.Prelude.{
  ℕ, suc, ◌-◌, Bool, true, false, ◌||◌, ◌&&◌, List, [], ◌∷◌, ltb, leb, if◌then◌else◌,
}

-- `state`: 0, 1 and 2.
pub data BreakerState : Type 0 where
  closed opened half_open : BreakerState

pub record CircuitBreaker : Type 0 where
  pub state : BreakerState
  pub failure_threshold : ℕ
  pub cooldown_period : ℕ
  pub half_open_max : ℕ
  pub consecutive_fails : ℕ
  pub last_fail_time : ℕ

pub new_circuit_breaker : ℕ → ℕ → ℕ → CircuitBreaker
new_circuit_breaker thresh cooldown half_max = record {
  state = closed;
  failure_threshold = thresh;
  cooldown_period = cooldown;
  half_open_max = half_max;
  consecutive_fails = 0;
  last_fail_time = 0;
}

abbrev pub is_closed : BreakerState → Bool
is_closed closed = true
is_closed _ = false

abbrev pub is_open : BreakerState → Bool
is_open opened = true
is_open _ = false

abbrev pub is_half_open : BreakerState → Bool
is_half_open half_open = true
is_half_open _ = false

-- `time.Since(cb.lastFailTime) > cb.cooldownPeriod`
abbrev pub has_cooled : CircuitBreaker → ℕ → Bool
has_cooled cb now = ltb cb.cooldown_period (now - cb.last_fail_time)

pub try_half_open : CircuitBreaker → ℕ → CircuitBreaker × Bool
try_half_open cb now =
    if is_open cb.state && has_cooled cb now
    then (record cb { state = half_open; consecutive_fails = 0 }, true)
    else (cb, is_half_open cb.state)

pub allow : CircuitBreaker → ℕ → Bool
allow cb now = is_closed cb.state || (is_open cb.state && has_cooled cb now)

pub record_result : CircuitBreaker → ℕ → Bool → CircuitBreaker
record_result cb now true = record cb {
  consecutive_fails = 0;
  state = if is_half_open cb.state then closed else cb.state;
}
record_result cb now false =
    let fails = suc cb.consecutive_fails in
    record cb {
      consecutive_fails = fails;
      last_fail_time = now;
      state = if leb cb.failure_threshold fails then opened else cb.state;
    }

pub data FailMode : Type 0 where
  rate_limit server_error timeout content_filter token_limit other : FailMode

pub data FallbackTier : Type 0 where
  primary secondary tertiary graceful escalate : FallbackTier

pub select_fallback : FailMode → FallbackTier
select_fallback rate_limit = secondary
select_fallback server_error = secondary
select_fallback timeout = tertiary
select_fallback content_filter = escalate
select_fallback token_limit = tertiary
select_fallback other = graceful

pub data ExecuteResult : Type 0 where
  executed throttled all_providers_failed : ExecuteResult

-- The loop over the providers: whether one is available.
pub any_available : List Bool → Bool
any_available [] = false
any_available (p ∷ ps) = if p then true else any_available ps

pub execute : CircuitBreaker → List Bool → ℕ → CircuitBreaker × ExecuteResult
execute cb ps now =
    if allow cb now
    then if any_available ps
      then (record_result cb now true, executed)
      else (record_result cb now false, all_providers_failed)
    else (cb, throttled)

-- Requests one after the other, each at its time with the availability it finds.
pub run : CircuitBreaker → List (ℕ × List Bool) → CircuitBreaker
run cb [] = cb
run cb ((now, ps) ∷ rs) = run (execute cb ps now).0 rs
