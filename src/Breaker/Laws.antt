-- ===== src/Breaker/Laws.antt =====
-- When requests pass, when the breaker opens, and that the chain does not close it again.
use polarisagi_harness.Prelude.{
  ℕ, suc, ◌+◌, ◌≤◌, ◌<◌, ◌≡◌, ◌≢◌, ◌⊎◌, Bool, true, false, List, [], ◌∷◌, arith, if◌then◌else◌,
}
use polarisagi_harness.Breaker.{
  closed, opened, half_open, CircuitBreaker, allow, record_result, try_half_open, executed,
  throttled, all_providers_failed, any_available, execute, run,
}

-- What a request returns, and what it does: it is throttled exactly if the breaker is half open, or
-- open and not past its cooldown, and then changes nothing; it succeeds if a provider is available
-- and clears the count of failures; else it counts a failure.
pub execute_lem :
    (cb : CircuitBreaker) (ps : List Bool) (now : ℕ)
    → ((execute cb ps now ≡ (cb, throttled))
        × ((cb.state ≡ half_open)
            ⊎ ((cb.state ≡ opened) × (now ≤ cb.last_fail_time + cb.cooldown_period))))
      ⊎ (((execute cb ps now).1 ≡ executed)
          × (any_available ps ≡ true)
          × ((execute cb ps now).0.consecutive_fails ≡ 0)
          × (cb.state ≢ half_open))
      ⊎ (((execute cb ps now).1 ≡ all_providers_failed)
          × (any_available ps ≡ false)
          × ((execute cb ps now).0.consecutive_fails ≡ suc cb.consecutive_fails)
          × ((execute cb ps now).0.last_fail_time ≡ now))
unfolding execute allow record_result
execute_lem cb ps now = ground arith

-- A breaker below its threshold, or open.
abbrev pub IsArmed : CircuitBreaker → Type 0
IsArmed cb = (cb.state ≡ opened) ⊎ (cb.consecutive_fails < cb.failure_threshold)

execute-IsArmed :
    (cb : CircuitBreaker) (ps : List Bool) (now : ℕ)
    → 0 < cb.failure_threshold
    → IsArmed cb
    → IsArmed (execute cb ps now).0
      × ((execute cb ps now).0.failure_threshold ≡ cb.failure_threshold)
unfolding execute allow record_result
execute-IsArmed cb ps now h v = ground arith

-- However requests go, a breaker that is not open has seen fewer failures in a row than its
-- threshold.
pub run-IsArmed :
    (cb : CircuitBreaker) (rs : List (ℕ × List Bool))
    → 0 < cb.failure_threshold
    → IsArmed cb
    → IsArmed (run cb rs)
unfolding run
run-IsArmed cb [] h v = v
run-IsArmed cb ((now, ps) ∷ rs) h v =
    let (w, t) = execute-IsArmed cb ps now h v in
    run-IsArmed (execute cb ps now).0 rs (ground (arith, t)) w

execute-open :
    (cb : CircuitBreaker) (ps : List Bool) (now : ℕ)
    → cb.state ≡ opened
    → (execute cb ps now).0.state ≡ opened
unfolding execute allow record_result
execute-open cb ps now h = ground arith

still_open :
    (cb : CircuitBreaker) (rs : List (ℕ × List Bool))
    → cb.state ≡ opened
    → (run cb rs).state ≡ opened
unfolding run
still_open cb [] h = h
still_open cb ((now, ps) ∷ rs) h = still_open (execute cb ps now).0 rs (execute-open cb ps now h)

-- A request that an open breaker meets.
open_request :
    (cb : CircuitBreaker) (ps : List Bool) (now : ℕ)
    → cb.state ≡ opened
    → ((now ≤ cb.last_fail_time + cb.cooldown_period) × (execute cb ps now ≡ (cb, throttled)))
      ⊎ ((cb.last_fail_time + cb.cooldown_period < now)
          × ((execute cb ps now).1 ≡ (if any_available ps then executed else all_providers_failed))
          × ((execute cb ps now).0.state ≡ opened))
unfolding execute allow record_result
open_request cb ps now h = ground arith

-- An open breaker stays open under the fallback chain for good. Whatever requests it has met, it
-- throttles the next one up to the end of the cooldown after the last failure; past that it asks the
-- providers, and is open all the same afterwards, also when one was available.
pub run-open :
    (cb : CircuitBreaker) (rs : List (ℕ × List Bool)) (ps : List Bool) (now : ℕ)
    → cb.state ≡ opened
    → let c = run cb rs in
      (c.state ≡ opened)
      × (((now ≤ c.last_fail_time + c.cooldown_period) × (execute c ps now ≡ (c, throttled)))
          ⊎ ((c.last_fail_time + c.cooldown_period < now)
              × ((execute c ps now).1
                  ≡ (if any_available ps then executed else all_providers_failed))
              × ((execute c ps now).0.state ≡ opened)))
run-open cb rs ps now h = let o = still_open cb rs h in (o, open_request (run cb rs) ps now o)

-- After the cooldown one probe closes an open breaker if it succeeds; if it fails the breaker is half
-- open still, unless its threshold is 1 or less.
pub probe_lem :
    (cb : CircuitBreaker) (now later : ℕ)
    → cb.state ≡ opened
    → cb.last_fail_time + cb.cooldown_period < now
    → ((try_half_open cb now).1 ≡ true)
      × ((record_result (try_half_open cb now).0 later true).state ≡ closed)
      × (((record_result (try_half_open cb now).0 later false).state ≡ half_open)
          ⊎ (cb.failure_threshold ≤ 1))
unfolding try_half_open record_result
probe_lem cb now later h c = (ground arith, ground arith, ground arith)
