-- ===== src/FallbackFsm/Tests.antt =====
-- A machine that replans for ever.
use polarisagi_harness.Prelude.{◌≡◌, refl, none, some, List, [], ◌∷◌}
use polarisagi_harness.Protocol.{AgentTrigger, idle, replan, failed, validate_fail}
use polarisagi_harness.FallbackFsm.{FallbackFsm, transition, run}

abbrev looping : FallbackFsm
looping = record {
  state = idle;
  transitions = λ _ _. some replan;
  callbacks = λ _. none;
  state_deadlines = λ _. 0;
  replan_count = 0;
}

abbrev fails : List AgentTrigger
fails = validate_fail ∷ validate_fail ∷ validate_fail ∷ []

third_replans : (run looping fails).state ≡ replan
unfolding run transition
third_replans = refl

fourth_fails : (run looping (validate_fail ∷ fails)).state ≡ failed
unfolding run transition
fourth_fails = refl
