-- ===== src/Supervisor/Waiting.antt =====
-- How long the supervisor waits before a restart.
use polarisagi_harness.Prelude.{
  ℕ, suc, ◌-◌, ◌*◌, ◌^◌, ◌≤◌, ◌<◌, ◌≡◌, refl, sym, ap, ◌∙◌, inl, inr, Bool, Option, none, some,
  List, [], ◌∷◌, ltb, arith, All, Bool-cases, if◌then◌else◌,
}
use polarisagi_harness.Supervisor.{
  WorkerEntry, Supervisor, Round, Next, restart_after, stopped, finished, exceeded, decide, settle,
  round, Outcome, follow, run_worker, to_duration, backoff, canceled, failed, panicked, Error,
  execute_safely,
}

pow-suc : (k : ℕ) → 2 ^ suc k ≡ 2 * 2 ^ k
pow-suc k = omega arith

double_swap : (b x : ℕ) → b * (2 * x) ≡ 2 * (b * x)
double_swap b x = omega arith

double_lem : (b k : ℕ) → b * 2 ^ suc k ≡ 2 * (b * 2 ^ k)
double_lem b k = ap (λ x. b * x) (pow-suc k) ∙ double_swap b (2 ^ k)

to_duration-small : (s : Supervisor) (d : ℕ) → d < 2 ^ 63 → to_duration s d ≡ d
unfolding to_duration
to_duration-small s d h = ground (arith, h)

abbrev pub clamp : ℕ → ℕ → ℕ
clamp limit d = if ltb limit d then limit else d

clamp_double : (limit d : ℕ) → clamp limit (2 * d) ≡ clamp limit (2 * clamp limit d)
clamp_double limit d = ground arith

pred-suc : (k : ℕ) → suc k - 1 ≡ k
pred-suc k = omega arith

backoff-small :
    (s : Supervisor) (k : ℕ)
    → s.base_backoff * 2 ^ k < 2 ^ 63
    → backoff s (suc k) ≡ clamp s.max_backoff (s.base_backoff * 2 ^ k)
unfolding backoff
backoff-small s k h =
    ap (λ j. clamp s.max_backoff (to_duration s (s.base_backoff * 2 ^ j))) (pred-suc k)
    ∙ ap (λ d. clamp s.max_backoff d) (to_duration-small s (s.base_backoff * 2 ^ k) h)

-- While the doubled base still fits an int64, each crash of a streak doubles the wait of the one
-- before, up to max_backoff.
pub backoff_doubles :
    (s : Supervisor) (k : ℕ)
    → s.base_backoff * 2 ^ suc k < 2 ^ 63
    → backoff s (suc (suc k)) ≡ clamp s.max_backoff (2 * backoff s (suc k))
backoff_doubles s k h =
    let d = s.base_backoff * 2 ^ k in
    let twice = double_lem s.base_backoff k in
    backoff-small s (suc k) h
    ∙ ap (clamp s.max_backoff) twice
    ∙ clamp_double s.max_backoff d
    ∙ ap (λ x. clamp s.max_backoff (2 * x)) (sym (backoff-small s k (omega (arith, h, twice))))

pub backoff-max : (s : Supervisor) (n : ℕ) → backoff s n ≤ s.max_backoff
unfolding backoff
backoff-max s n = ground arith

decide-max :
    (s : Supervisor) (n : ℕ) (b : Bool) (d : ℕ) → decide s n b ≡ restart_after d → d ≤ s.max_backoff
unfolding decide
decide-max s n b d e = ground (arith, backoff-max s n)

settle-max :
    (s : Supervisor) (w : WorkerEntry) (now : ℕ) (b : Bool) (o : Option Error) (d : ℕ)
    → (settle s w now b o).1 ≡ restart_after d
    → d ≤ s.max_backoff
unfolding settle
settle-max s w now b none d e = ground arith
settle-max s w now b (some canceled) d e = ground arith
settle-max s w now b (some (failed m)) d e = decide-max s _ b d e
settle-max s w now b (some (panicked m)) d e = decide-max s _ b d e

round-max :
    (s : Supervisor) (w : WorkerEntry) (r : Round) (d : ℕ)
    → (round s w r).1 ≡ restart_after d
    → d ≤ s.max_backoff
unfolding round
round-max s w r d e = elim (Bool-cases r.done_before) [
  | inl t ↦ ground (arith, (rw t at e))
  | inr f ↦ settle-max s w r.now r.done_waiting (execute_safely r.run) d (rw f at e)
]

follow-max :
    (m : ℕ) (w : WorkerEntry) (next : Next) (o : Outcome)
    → ((d : ℕ) → next ≡ restart_after d → d ≤ m)
    → All (λ d. d ≤ m) o.waits
    → All (λ d. d ≤ m) (follow w next o).waits
unfolding follow
follow-max m w (restart_after d) o h a = (h d refl, a)
follow-max m w stopped o h a = tt
follow-max m w finished o h a = tt
follow-max m w exceeded o h a = tt

-- No wait of any run is longer than max_backoff, whatever the conversion of a number too large gives.
pub waits_bounded :
    (s : Supervisor) (w : WorkerEntry) (rs : List Round)
    → All (λ d. d ≤ s.max_backoff) (run_worker s w rs).waits
unfolding run_worker
waits_bounded s w [] = tt
waits_bounded s w (r ∷ rs) =
    let (w', next) = round s w r in
    follow-max s.max_backoff w' next (run_worker s w' rs) (round-max s w r) (waits_bounded s w' rs)
