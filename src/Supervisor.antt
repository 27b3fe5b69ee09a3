-- ===== src/Supervisor.antt =====
-- pkg/swarm/supervisor/tree.go: the loop that runs a worker, restarts it after a crash and gives up
-- on it. Times and durations are nanoseconds. A round of the loop is given by what the worker did,
-- the clock reading after it, and whether the supervisor's context was done before the run and during
-- the wait.
mod Restarts
mod Loops
mod Waiting
mod Tests
use polarisagi_harness.Prelude.{
  ℕ, zero, suc, ◌+◌, ◌-◌, ◌*◌, ◌^◌, Bool, true, false, Option, none, some, List, [], ◌∷◌, String,
  ltb, if◌then◌else◌,
}

-- An error; `canceled` is any error that errors.Is takes for context.Canceled.
pub data Error : Type 0 where
  canceled : Error
  failed : String → Error
  panicked : String → Error

-- How a call of the worker's function ends.
pub data Run : Type 0 where
  returns : Option Error → Run
  panics : String → Run

pub record WorkerEntry : Type 0 where
  pub id : String
  pub restart_count : ℕ
  pub last_error : Option Error
  pub last_crash_at : Option ℕ

-- `overflow` is the wait for a number that no int64 holds, where Go leaves the conversion from
-- float64 to the implementation; a negative duration is a wait of 0.
pub record Supervisor : Type 0 where
  pub max_restarts : ℕ
  pub time_window : ℕ
  pub base_backoff : ℕ
  pub max_backoff : ℕ
  pub overflow : ℕ → ℕ

abbrev pub millisecond : ℕ
millisecond = 1_000_000

pub new_supervisor : ℕ → ℕ → (ℕ → ℕ) → Supervisor
new_supervisor max_restarts time_window overflow = record {
  max_restarts = max_restarts;
  time_window = time_window;
  base_backoff = 100 * millisecond;
  max_backoff = 30_000 * millisecond;
  overflow = overflow;
}

pub add_worker : String → WorkerEntry
add_worker id = record { id = id; restart_count = 0; last_error = none; last_crash_at = none }

pub execute_safely : Run → Option Error
execute_safely (returns e) = e
execute_safely (panics v) = some (panicked v)

-- The count before this crash is added. From the zero time to now is longer than any window.
pub count_before : Supervisor → Option ℕ → ℕ → ℕ → ℕ
count_before s none now n = 0
count_before s (some t) now n = if ltb s.time_window (now - t) then 0 else n

pub crash : Supervisor → WorkerEntry → ℕ → Error → WorkerEntry
crash s w now e = record w {
  restart_count = suc (count_before s w.last_crash_at now w.restart_count);
  last_error = some e;
  last_crash_at = some now;
}

-- time.Duration(float64(base) * math.Pow(2, count-1)), which a float64 holds exactly.
pub to_duration : Supervisor → ℕ → ℕ
to_duration s d = if ltb d (2 ^ 63) then d else s.overflow d

pub backoff : Supervisor → ℕ → ℕ
backoff s count =
    let d = to_duration s (s.base_backoff * 2 ^ (count - 1)) in
    if ltb s.max_backoff d then s.max_backoff else d

pub record Round : Type 0 where
  pub done_before : Bool
  pub run : Run
  pub now : ℕ
  pub done_waiting : Bool

-- What follows a round: the next one after a wait, or the end of the worker.
pub data Next : Type 0 where
  restart_after : ℕ → Next
  stopped finished exceeded : Next

pub decide : Supervisor → ℕ → Bool → Next
decide s count done_waiting =
    if ltb s.max_restarts count
    then exceeded
    else if done_waiting
    then stopped
    else restart_after (backoff s count)

pub settle : Supervisor → WorkerEntry → ℕ → Bool → Option Error → WorkerEntry × Next
settle s w now done_waiting none = (w, finished)
settle s w now done_waiting (some canceled) = (w, finished)
settle s w now done_waiting (some e) =
    let crashed = crash s w now e in (crashed, decide s crashed.restart_count done_waiting)

-- One pass of the loop's body.
pub round : Supervisor → WorkerEntry → Round → WorkerEntry × Next
round s w r =
    if r.done_before then (w, stopped) else settle s w r.now r.done_waiting (execute_safely r.run)

pub data End : Type 0 where
  running : End
  ended : Next → End

-- The entry, the waits and whether the loop still runs after the given rounds.
pub record Outcome : Type 0 where
  pub worker : WorkerEntry
  pub waits : List ℕ
  pub end : End

pub follow : WorkerEntry → Next → Outcome → Outcome
follow w (restart_after d) rest = record rest { waits = d ∷ rest.waits }
follow w stopped rest = record { worker = w; waits = []; end = ended stopped }
follow w finished rest = record { worker = w; waits = []; end = ended finished }
follow w exceeded rest = record { worker = w; waits = []; end = ended exceeded }

pub run_worker : Supervisor → WorkerEntry → List Round → Outcome
run_worker s w [] = record { worker = w; waits = []; end = running }
run_worker s w (r ∷ rs) =
    let (w', next) = round s w r in let rest = run_worker s w' rs in follow w' next rest
