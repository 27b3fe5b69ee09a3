-- ===== src/Supervisor/Tests.antt =====
-- A worker that always panics, once fast and once slowly, and the theorems at work on it.
use polarisagi_harness.Prelude.{ℕ, ◌*◌, ◌≡◌, refl, false, none, [], ◌∷◌}
use polarisagi_harness.Supervisor.{
  Supervisor, new_supervisor, add_worker, millisecond, Round, returns, panics, execute_safely,
  backoff, to_duration, run_worker, round, settle, crash, count_before, decide, follow, finished,
  exceeded, ended,
}
use polarisagi_harness.Supervisor.Restarts.{IsCrash, by_panic, gives_up, streak, gives_up_exact}
use polarisagi_harness.Supervisor.Loops.{backoffs}

-- Two restarts within five seconds; a number too large is a wait of 0.
abbrev two_restarts : Supervisor
two_restarts = new_supervisor 2 (5000 * millisecond) (λ d. 0)

abbrev panic_at : ℕ → Round
panic_at t = record {
  done_before = false;
  run = panics "boom";
  now = t * millisecond;
  done_waiting = false;
}

abbrev return_at : ℕ → Round
return_at t = record {
  done_before = false;
  run = returns none;
  now = t * millisecond;
  done_waiting = false;
}

third_crash_ends :
    (run_worker two_restarts (add_worker "a") (panic_at 10 ∷ panic_at 200 ∷ panic_at 600 ∷ [])).end
    ≡ ended exceeded
unfolding run_worker round settle crash count_before decide follow execute_safely add_worker
    new_supervisor
third_crash_ends = refl

return_ends :
    (run_worker two_restarts (add_worker "a") (panic_at 10 ∷ return_at 200 ∷ [])).end
    ≡ ended finished
unfolding run_worker round settle crash count_before decide follow execute_safely add_worker
    new_supervisor
return_ends = refl

waits_double :
    backoffs two_restarts 1 4
    ≡ 100 * millisecond ∷ 200 * millisecond ∷ 400 * millisecond ∷ 800 * millisecond ∷ []
unfolding backoff to_duration new_supervisor
waits_double = refl

panic_at-IsCrash : (t : ℕ) → IsCrash (panic_at t)
unfolding IsCrash execute_safely
panic_at-IsCrash t = (refl, refl, by_panic "boom")

gives_up_exact_example :
    (run_worker two_restarts (add_worker "a") (panic_at 10 ∷ panic_at 200 ∷ panic_at 600 ∷ [])).end
    ≡ ended exceeded
unfolding gives_up streak new_supervisor
gives_up_exact_example =
    gives_up_exact two_restarts "a" (panic_at 10 ∷ panic_at 200 ∷ panic_at 600 ∷ [])
      (panic_at-IsCrash 10, (panic_at-IsCrash 200, (panic_at-IsCrash 600, tt)))
