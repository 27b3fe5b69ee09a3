-- ===== src/Supervisor/Restarts.antt =====
-- When the supervisor gives up on a worker.
use polarisagi_harness.Prelude.{
  ℕ, suc, ◌-◌, ◌≡◌, refl, ap, ◌∙◌, inl, inr, Bool, true, false, ◌||◌, Option, none, some, List, [],
  ◌∷◌, String, ltb, arith, All, Bool-cases, if◌then◌else◌,
}
use polarisagi_harness.Supervisor.{
  Error, failed, panicked, WorkerEntry, Supervisor, add_worker, execute_safely, count_before, crash,
  Round, Next, exceeded, decide, settle, round, running, ended, Outcome, follow, run_worker,
}

-- The run fails or panics, and the context stays open.
pub data Fails : Option Error → Type 0 where
  by_error : (m : String) → Fails (some (failed m))
  by_panic : (m : String) → Fails (some (panicked m))

unfoldable pub IsCrash : Round → Type 0
IsCrash r = (r.done_before ≡ false) × (r.done_waiting ≡ false) × Fails (execute_safely r.run)

-- Of the crash times, latest first: how many at the front follow one another within the window.
unfoldable pub streak : ℕ → List ℕ → ℕ
streak window [] = 0
streak window (t ∷ []) = 1
streak window (t ∷ u ∷ rest) = if ltb window (t - u) then 1 else suc (streak window (u ∷ rest))

-- Whether some streak gets longer than the limit as the rounds' crashes come in.
unfoldable pub gives_up : ℕ → ℕ → List ℕ → List Round → Bool
gives_up limit window log [] = false
gives_up limit window log (r ∷ rs) =
    let later = gives_up limit window (r.now ∷ log) rs in
    ltb limit (streak window (r.now ∷ log)) || later

abbrev latest : List ℕ → Option ℕ
latest [] = none
latest (t ∷ rest) = some t

abbrev Tracks : Supervisor → WorkerEntry → List ℕ → Type 0
Tracks s w log = (w.restart_count ≡ streak s.time_window log) × (w.last_crash_at ≡ latest log)

count_before-streak :
    (s : Supervisor) (log : List ℕ) (now : ℕ)
    → suc (count_before s (latest log) now (streak s.time_window log))
      ≡ streak s.time_window (now ∷ log)
unfolding count_before streak
count_before-streak s [] now = refl
count_before-streak s (t ∷ rest) now = ground arith

crash-Tracks :
    (s : Supervisor) (w : WorkerEntry) (log : List ℕ) (now : ℕ) (e : Error)
    → Tracks s w log
    → Tracks s (crash s w now e) (now ∷ log)
unfolding crash
crash-Tracks s w log now e (c, l) = (
  ap (λ o. suc (count_before s o now w.restart_count)) l
      ∙ ap (λ n. suc (count_before s (latest log) now n)) c
      ∙ count_before-streak s log now,
  refl,
)

settle-Fails :
    (s : Supervisor) (w : WorkerEntry) (now : ℕ) (o : Option Error)
    → Fails o
    → (e : Error) × (settle s w now false o
        ≡ (crash s w now e, decide s (crash s w now e).restart_count false))
unfolding settle
settle-Fails s w now _ (by_error m) = (failed m, refl)
settle-Fails s w now _ (by_panic m) = (panicked m, refl)

pub round-IsCrash :
    (s : Supervisor) (w : WorkerEntry) (r : Round)
    → IsCrash r
    → (e : Error) × (round s w r
        ≡ (crash s w r.now e, decide s (crash s w r.now e).restart_count false))
unfolding round IsCrash
round-IsCrash s w r (b, d, f) =
    let (e, q) = settle-Fails s w r.now (execute_safely r.run) f in (e, rw (b, d) q)

-- What a crash leads to, by the length of the streak that it ends.
pub run_worker-crash :
    (s : Supervisor) (w : WorkerEntry) (r : Round) (rs : List Round) (e : Error)
    → round s w r ≡ (crash s w r.now e, decide s (crash s w r.now e).restart_count false)
    → run_worker s w (r ∷ rs)
      ≡ follow
          (crash s w r.now e)
          (decide s (crash s w r.now e).restart_count false)
          (run_worker s (crash s w r.now e) rs)
unfolding run_worker
run_worker-crash s w r rs e q =
    ap (λ (p : WorkerEntry × Next). follow p.0 p.1 (run_worker s p.0 rs)) q

follow_end :
    (s : Supervisor) (w : WorkerEntry) (n : ℕ) (o : Outcome)
    → (follow w (decide s n false) o).end ≡ (if ltb s.max_restarts n then ended exceeded else o.end)
unfolding decide follow
follow_end s w n o = elim (Bool-cases (ltb s.max_restarts n)) [ inl t ↦ rw t | inr f ↦ rw f ]

gives_up-cases :
    (a b : Bool)
    → (if a then ended exceeded else (if b then ended exceeded else running))
      ≡ (if a || b then ended exceeded else running)
gives_up-cases true b = refl
gives_up-cases false b = refl

run_worker-Tracks :
    (s : Supervisor) (w : WorkerEntry) (log : List ℕ) (rs : List Round)
    → Tracks s w log
    → All IsCrash rs
    → (run_worker s w rs).end
      ≡ (if gives_up s.max_restarts s.time_window log rs then ended exceeded else running)
unfolding gives_up
run_worker-Tracks s w log [] t a = unfold run_worker in refl
run_worker-Tracks s w log (r ∷ rs) t (a, rest) =
    let (e, q) = round-IsCrash s w r a in
    let w' = crash s w r.now e in
    let t' = crash-Tracks s w log r.now e t in
    ap (λ (o : Outcome). o.end) (run_worker-crash s w r rs e q)
    ∙ follow_end s w' w'.restart_count (run_worker s w' rs)
    ∙ ap (λ n. if ltb s.max_restarts n then ended exceeded else (run_worker s w' rs).end) t'.0
    ∙ ap
        (λ x. if ltb s.max_restarts (streak s.time_window (r.now ∷ log)) then ended exceeded else x)
        (run_worker-Tracks s w' (r.now ∷ log) rs t' rest)
    ∙ gives_up-cases (ltb s.max_restarts (streak s.time_window (r.now ∷ log)))
        (gives_up s.max_restarts s.time_window (r.now ∷ log) rs)

-- The supervisor gives up on a worker that crashes in every round exactly if, at some crash, more
-- than max_restarts crashes in a row, this one included, each came within the window after the one
-- before; else it still runs it.
pub gives_up_exact :
    (s : Supervisor) (id : String) (rs : List Round)
    → All IsCrash rs
    → (run_worker s (add_worker id) rs).end
      ≡ (if gives_up s.max_restarts s.time_window [] rs then ended exceeded else running)
unfolding add_worker streak
gives_up_exact s id rs a = run_worker-Tracks s (add_worker id) [] rs (refl, refl) a
