-- ===== src/KillSwitch.antt =====
-- pkg/substrate/killswitch.go: the three stages of the emergency stop. A clock reading (in
-- nanoseconds), the test of the token burn rate and what os.Stat finds are arguments. A reason is a
-- constructor for the text that the code writes. The state-change callback and the notifiers see
-- each transition: `transitions` lists what they are called with, the latest first.
pub mod Stages
pub mod Signals
mod Tests
use polarisagi_harness.Prelude.{
  ℕ, suc, ◌+◌, ◌*◌, ◌-◌, Bool, true, false, ◌||◌, ◌&&◌, not, Option, none, some, List, [], ◌∷◌,
  ◌++◌, String, ltb, leb, str_eq, length, if◌then◌else◌,
}

pub data KillState : Type 0 where
  kill_normal kill_throttle kill_pause kill_full_stop : KillState

abbrev pub stage : KillState → ℕ
stage kill_normal = 0
stage kill_throttle = 1
stage kill_pause = 2
stage kill_full_stop = 3

pub data Reason : Type 0 where
  no_reason full_stop_conditions pause_conditions throttle_conditions : Reason
  triple_sigint killswitch_file : Reason
  given : String → Reason

pub record Monitors : Type 0 where
  pub error_counter : ℕ
  pub safety_violations : ℕ
  pub fatal_violations : ℕ
  pub irreversible_attempts : ℕ

-- What the file `.fullstop` holds.
pub record StopFile : Type 0 where
  pub timestamp : ℕ
  pub reason : Reason
  pub actor : String

-- `has_dir`: the data directory resolves and can be written to.
pub record KillSwitch : Type 0 where
  pub state : KillState
  pub reason : Reason
  pub actor : String
  pub state_entered_at : ℕ
  pub monitors : Monitors
  pub transitions : List (KillState × Reason)
  pub sigint_times : List ℕ
  pub has_dir : Bool
  pub stop_file : Option StopFile

pub new_kill_switch : Bool → ℕ → KillSwitch
new_kill_switch dir now = record {
  state = kill_normal;
  reason = no_reason;
  actor = "";
  state_entered_at = now;
  monitors = record {
    error_counter = 0;
    safety_violations = 0;
    fatal_violations = 0;
    irreversible_attempts = 0;
  };
  transitions = [];
  sigint_times = [];
  has_dir = dir;
  stop_file = none;
}

pub is_full_stop_file_present : KillSwitch → Bool
is_full_stop_file_present ks = elim ks.stop_file [ none ↦ false | some f ↦ true ]

abbrev pub minute : ℕ
minute = 60_000_000_000

abbrev is_full_stop : KillState → Bool
is_full_stop kill_full_stop = true
is_full_stop _ = false

abbrev is_pause : KillState → Bool
is_pause kill_pause = true
is_pause _ = false

abbrev is_throttle : KillState → Bool
is_throttle kill_throttle = true
is_throttle _ = false

pub is_sealed : KillSwitch → Bool
is_sealed ks = is_full_stop ks.state

-- `burning`: CheckThrottle is at stage 1 or above.
pub should_throttle : Bool → KillSwitch → Bool
should_throttle burning ks = if burning then true else ltb 5 ks.monitors.error_counter

pub should_pause : ℕ → KillSwitch → Bool
should_pause now ks =
    if ltb 0 ks.monitors.safety_violations || ltb 0 ks.monitors.irreversible_attempts
    then true
    else is_throttle ks.state && ltb (10 * minute) (now - ks.state_entered_at)

pub should_full_stop : ℕ → KillSwitch → Bool
should_full_stop now ks =
    if ltb 0 ks.monitors.fatal_violations
    then true
    else is_pause ks.state && ltb (15 * minute) (now - ks.state_entered_at)

abbrev or_system : String → String
or_system actor = if str_eq actor "" then "system" else actor

pub write_full_stop_file : ℕ → Reason → KillSwitch → KillSwitch
write_full_stop_file now r ks =
    if ks.has_dir
    then record ks {
      stop_file = some (record { timestamp = now; reason = r; actor = or_system ks.actor });
    }
    else ks

abbrev notify : KillState → Reason → KillSwitch → KillSwitch
notify s r ks = record ks { transitions = (s, r) ∷ ks.transitions }

pub transition : ℕ → KillState → Reason → KillSwitch → KillSwitch
transition now s r ks =
    let entered = record ks { state = s; reason = r; state_entered_at = now } in
    notify s r (if is_full_stop s then write_full_stop_file now r entered else entered)

-- The stage that CheckAndAct returns stands beside the state.
pub check_and_act : ℕ → Bool → KillSwitch → KillSwitch × KillState
check_and_act now burning ks =
    if should_full_stop now ks
    then (
      if is_full_stop ks.state then ks else transition now kill_full_stop full_stop_conditions ks,
      kill_full_stop,
    )
    else if should_pause now ks
    then (
      if ltb (stage ks.state) (stage kill_pause)
          then transition now kill_pause pause_conditions ks
          else ks,
      kill_pause,
    )
    else if should_throttle burning ks
    then (
      if ltb (stage ks.state) (stage kill_throttle)
          then transition now kill_throttle throttle_conditions ks
          else ks,
      kill_throttle,
    )
    else (ks, ks.state)

pub trigger_full_stop : ℕ → String → Reason → KillSwitch → KillSwitch
trigger_full_stop now actor r ks = transition now kill_full_stop r (record ks { actor = actor })

pub report_error : ℕ → Bool → KillSwitch → KillSwitch
report_error now burning ks =
    let m = ks.monitors in
    (check_and_act now burning
      (record ks { monitors = record m { error_counter = suc m.error_counter } })).0

pub report_safety_violation : ℕ → Bool → Bool → KillSwitch → KillSwitch
report_safety_violation now burning fatal ks =
    let m = ks.monitors in
    (check_and_act now burning (record ks {
      monitors =
          if fatal
          then record m { fatal_violations = suc m.fatal_violations }
          else record m { safety_violations = suc m.safety_violations };
    })).0

pub report_irreversible_attempt : ℕ → Bool → KillSwitch → KillSwitch
report_irreversible_attempt now burning ks =
    let m = ks.monitors in
    (check_and_act now burning
      (record ks { monitors = record m { irreversible_attempts = suc m.irreversible_attempts } })).0

pub manual_full_stop : ℕ → String → String → KillSwitch → KillSwitch
manual_full_stop now actor r ks =
    transition now kill_full_stop (given r) (record ks { actor = actor })

abbrev pub window : ℕ
window = 3_000_000_000

pub recent : ℕ → List ℕ → List ℕ
recent now [] = []
recent now (t ∷ ts) = let rest = recent now ts in if leb (now - t) window then t ∷ rest else rest

pub on_sigint : ℕ → KillSwitch → KillSwitch
on_sigint now ks =
    let times = recent now ks.sigint_times ++ now ∷ [] in
    let noted = record ks { sigint_times = times } in
    if leb 3 (length times)
    then trigger_full_stop now "user" triple_sigint
        (record noted { reason = triple_sigint; actor = "user" })
    else noted

-- `found`: a data directory resolves and the file KILLSWITCH is in it.
pub check_killswitch_file : ℕ → Bool → KillSwitch → KillSwitch
check_killswitch_file now found ks =
    if found
    then trigger_full_stop now "operator" killswitch_file
        (record ks { reason = killswitch_file; actor = "operator" })
    else ks

pub data Op : Type 0 where
  check error_reported irreversible_reported sigint : Op
  violation_reported : Bool → Op
  stop_manually : String → String → Op
  poll_file : Bool → Op

-- An operation at its time, under the burn test of that moment.
pub apply : ℕ × Bool × Op → KillSwitch → KillSwitch
apply (now, burning, check) ks = (check_and_act now burning ks).0
apply (now, burning, error_reported) ks = report_error now burning ks
apply (now, burning, irreversible_reported) ks = report_irreversible_attempt now burning ks
apply (now, burning, sigint) ks = on_sigint now ks
apply (now, burning, violation_reported fatal) ks = report_safety_violation now burning fatal ks
apply (now, burning, stop_manually actor r) ks = manual_full_stop now actor r ks
apply (now, burning, poll_file found) ks = check_killswitch_file now found ks

pub run_ops : KillSwitch → List (ℕ × Bool × Op) → KillSwitch
run_ops ks [] = ks
run_ops ks (o ∷ os) = run_ops (apply o ks) os
