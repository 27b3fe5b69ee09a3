-- ===== src/KillSwitch/Tests.antt =====
-- Runs of the switch, and its theorems there.
use polarisagi_harness.Prelude.{ℕ, ◌*◌, ◌≡◌, refl, true, false, Bool, List, [], ◌∷◌}
use polarisagi_harness.KillSwitch.{
  kill_pause, KillSwitch, new_kill_switch, should_throttle, should_pause, should_full_stop,
  write_full_stop_file, transition, check_and_act, report_safety_violation, Op, check,
  violation_reported, stop_manually, apply, run_ops, minute, is_sealed, manual_full_stop,
}

abbrev fresh : KillSwitch
fresh = new_kill_switch true 0

abbrev incident : List (ℕ × Bool × Op)
incident =
    (1, true, check) ∷ (2, false, violation_reported false) ∷ (16 * minute, false, check) ∷ []

-- A pause that nobody ends within fifteen minutes seals.
incident_seals : is_sealed (run_ops fresh incident) ≡ true
unfolding run_ops apply check_and_act should_full_stop should_pause should_throttle transition
    write_full_stop_file report_safety_violation new_kill_switch is_sealed
incident_seals = refl

-- CheckAndAct of a switch that was sealed by hand after a violation answers a lower stage.
answers_lower :
    (check_and_act 5 false (
      run_ops fresh
        ((1, false, violation_reported false) ∷ (2, false, stop_manually "op" "stop") ∷ []))).1
    ≡ kill_pause
unfolding run_ops apply check_and_act should_full_stop should_pause should_throttle transition
    write_full_stop_file report_safety_violation new_kill_switch manual_full_stop
answers_lower = refl
