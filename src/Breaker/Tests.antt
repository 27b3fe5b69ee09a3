-- ===== src/Breaker/Tests.antt =====
-- A breaker that opens after two failures.
use polarisagi_harness.Prelude.{
  ℕ, ◌+◌, ◌≤◌, ◌<◌, ◌≡◌, ◌⊎◌, refl, Bool, true, false, List, [], ◌∷◌, if◌then◌else◌,
}
use polarisagi_harness.Breaker.{
  closed, opened, CircuitBreaker, allow, record_result, any_available, execute, run, executed,
  throttled, all_providers_failed,
}
use polarisagi_harness.Breaker.Laws.{run-open}

abbrev breaker : CircuitBreaker
breaker = record {
  state = closed;
  failure_threshold = 2;
  cooldown_period = 10;
  half_open_max = 1;
  consecutive_fails = 0;
  last_fail_time = 0;
}

abbrev outage : List (ℕ × List Bool)
outage = (1, false ∷ []) ∷ (2, false ∷ false ∷ []) ∷ (20, true ∷ []) ∷ []

-- The last request finds a provider and the breaker stays open.
outage_opens : (run breaker outage).state ≡ opened
unfolding run execute allow record_result any_available
outage_opens = refl

abbrev open_breaker : CircuitBreaker
open_breaker = record breaker { state = opened; consecutive_fails = 2; last_fail_time = 2 }

-- The cooldown after the failure at 2 is over at 13, where a provider is there.
run-open_example :
    let c = run open_breaker [] in
    (c.state ≡ opened)
    × (((13 ≤ c.last_fail_time + c.cooldown_period) × (execute c (true ∷ []) 13 ≡ (c, throttled)))
        ⊎ ((c.last_fail_time + c.cooldown_period < 13)
            × ((execute c (true ∷ []) 13).1
                ≡ (if any_available (true ∷ []) then executed else all_providers_failed))
            × ((execute c (true ∷ []) 13).0.state ≡ opened)))
run-open_example = run-open open_breaker [] (true ∷ []) 13 refl
