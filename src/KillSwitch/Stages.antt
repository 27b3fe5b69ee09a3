-- ===== src/KillSwitch/Stages.antt =====
-- The stages go up, never down, and answer what was reported.
use polarisagi_harness.Prelude.{ℕ, ◌≤◌, ◌≡◌, ◌≢◌, refl, ◌⊎◌, inl, inr, Bool, true, false, arith}
use polarisagi_harness.KillSwitch.{
  KillState, kill_throttle, kill_pause, kill_full_stop, stage, Reason, full_stop_conditions,
  pause_conditions, throttle_conditions, KillSwitch, new_kill_switch, is_full_stop_file_present,
  should_throttle, should_pause, should_full_stop, write_full_stop_file, transition, check_and_act,
}

-- A sealed switch with a data directory has written the file that refuses the next start.
abbrev pub HasFile : KillSwitch → Type 0
HasFile ks =
    (ks.state ≢ kill_full_stop) ⊎ ((ks.has_dir ≡ false) ⊎ (is_full_stop_file_present ks ≡ true))

transition-lem :
    (now : ℕ) (s : KillState) (r : Reason) (ks : KillSwitch)
    → ((transition now s r ks).state ≡ s)
      × ((transition now s r ks).monitors ≡ ks.monitors)
      × HasFile (transition now s r ks)
unfolding transition write_full_stop_file is_full_stop_file_present
transition-lem now s r ks = ground arith

-- A fatal violation seals; any other violation or irreversible attempt pauses at least, and a sixth
-- error throttles at least.
pub record Inv (ks : KillSwitch) : Type 0 where
  pub file : HasFile ks
  pub fatal : (ks.monitors.fatal_violations ≡ 0) ⊎ (ks.state ≡ kill_full_stop)
  pub violated :
      ((ks.monitors.safety_violations ≡ 0) × (ks.monitors.irreversible_attempts ≡ 0))
      ⊎ (stage kill_pause ≤ stage ks.state)
  pub failing : (ks.monitors.error_counter ≤ 5) ⊎ (stage kill_throttle ≤ stage ks.state)

-- CheckAndAct answers every report, whatever the counts are: it reaches the invariant from any switch
-- whose file is as it should be, never lowers the stage, and returns at most the stage it leaves.
pub check_and_act-Inv :
    (now : ℕ) (burning : Bool) (ks : KillSwitch)
    → HasFile ks
    → Inv (check_and_act now burning ks).0
      × (stage ks.state ≤ stage (check_and_act now burning ks).0.state)
      × (stage (check_and_act now burning ks).1 ≤ stage (check_and_act now burning ks).0.state)
unfolding check_and_act should_full_stop should_pause should_throttle
check_and_act-Inv now burning ks v = ground (
  arith,
  transition-lem now kill_full_stop full_stop_conditions ks,
  transition-lem now kill_pause pause_conditions ks,
  transition-lem now kill_throttle throttle_conditions ks,
)

abbrev Goes : KillSwitch → KillSwitch → Type 0
Goes ks ks' = Inv ks' × (stage ks.state ≤ stage ks'.state)

-- Sealing satisfies the invariant.
pub sealed :
    (now : ℕ) (r : Reason) (ks : KillSwitch)
    → Inv (transition now kill_full_stop r ks)
      × ((transition now kill_full_stop r ks).state ≡ kill_full_stop)
sealed now r ks =
    let (s, m, f) = transition-lem now kill_full_stop r ks in
    (
      record {
        file = f;
        fatal = inr s;
        violated = inr (ground (arith, s));
        failing = inr (ground (arith, s));
      },
      s,
    )

-- A new switch satisfies the invariant.
pub new_kill_switch-Inv : (dir : Bool) (now : ℕ) → Inv (new_kill_switch dir now)
unfolding new_kill_switch
new_kill_switch-Inv dir now = record {
  file = inl (λ e. cc);
  fatal = inl refl;
  violated = inl (refl, refl);
  failing = inl (omega arith);
}
