-- ===== src/Supervisor/Loops.antt =====
-- A worker that crashes again and again: fast, until the supervisor gives up, or slowly, for ever.
use polarisagi_harness.Prelude.{
  ℕ, zero, suc, ◌+◌, ◌-◌, ◌≤◌, ◌<◌, ◌≡◌, refl, ap, ◌∙◌, false, Option, none, some, List, [], ◌∷◌,
  String, length, arith, All,
}
use polarisagi_harness.Supervisor.{
  WorkerEntry, Supervisor, add_worker, count_before, crash, Round, restart_after, exceeded, decide,
  End, running, ended, Outcome, follow, run_worker, backoff,
}
use polarisagi_harness.Supervisor.Restarts.{IsCrash, round-IsCrash, run_worker-crash}

-- Every round's clock reading is at most a window after the one before.
abbrev pub AreClose : ℕ → ℕ → List Round → Type 0
AreClose window t [] = Unit
AreClose window t (r ∷ rs) = (r.now - t ≤ window) × AreClose window r.now rs

-- Every round's clock reading is more than a window after the one before.
abbrev pub AreApart : ℕ → ℕ → List Round → Type 0
AreApart window t [] = Unit
AreApart window t (r ∷ rs) = (window < r.now - t) × AreApart window r.now rs

-- The waits after the crashes number n, n + 1, ..., k of them.
abbrev pub backoffs : Supervisor → ℕ → ℕ → List ℕ
backoffs s n zero = []
backoffs s n (suc k) = backoff s n ∷ backoffs s (suc n) k

abbrev pub copies : ℕ → ℕ → List ℕ
copies d zero = []
copies d (suc k) = d ∷ copies d k

-- The rounds end with the given waits in the given way.
abbrev Ends : Outcome → List ℕ → End → Type 0
Ends o ds x = (o.waits ≡ ds) × (o.end ≡ x)

decide-exceeded : (s : Supervisor) (n : ℕ) → s.max_restarts < n → decide s n false ≡ exceeded
unfolding decide
decide-exceeded s n h = ground (arith, h)

decide-restart :
    (s : Supervisor) (n : ℕ) → n ≤ s.max_restarts → decide s n false ≡ restart_after (backoff s n)
unfolding decide
decide-restart s n h = ground (arith, h)

-- A crash over the limit ends the worker.
run_worker-last :
    (s : Supervisor) (w : WorkerEntry) (r : Round) (rs : List Round)
    → IsCrash r
    → s.max_restarts < suc (count_before s w.last_crash_at r.now w.restart_count)
    → Ends (run_worker s w (r ∷ rs)) [] (ended exceeded)
unfolding crash follow
run_worker-last s w r rs a h =
    let (e, q) = round-IsCrash s w r a in
    let w' = crash s w r.now e in
    let eq =
      run_worker-crash s w r rs e q
      ∙ ap (λ x. follow w' x (run_worker s w' rs)) (decide-exceeded s w'.restart_count h) in
    (ap (λ (o : Outcome). o.waits) eq, ap (λ (o : Outcome). o.end) eq)

-- A crash within the limit leads to a wait and the next round, in some entry with this count.
run_worker-next :
    (s : Supervisor) (w : WorkerEntry) (r : Round) (rs : List Round) (ds : List ℕ) (x : End) (n : ℕ)
    → IsCrash r
    → suc (count_before s w.last_crash_at r.now w.restart_count) ≡ n
    → n ≤ s.max_restarts
    → ((w' : WorkerEntry)
        → w'.restart_count ≡ n
        → w'.last_crash_at ≡ some r.now
        → Ends (run_worker s w' rs) ds x)
    → Ends (run_worker s w (r ∷ rs)) (backoff s n ∷ ds) x
unfolding crash follow
run_worker-next s w r rs ds x n a c h ih =
    let (e, q) = round-IsCrash s w r a in
    let w' = crash s w r.now e in
    let (u, v) = ih w' c refl in
    let eq =
      run_worker-crash s w r rs e q
      ∙ ap (λ z. follow w' z (run_worker s w' rs))
          (ap (λ k. decide s k false) c ∙ decide-restart s n h) in
    (
      ap (λ (o : Outcome). o.waits) eq ∙ ap (λ z. backoff s n ∷ z) u,
      ap (λ (o : Outcome). o.end) eq ∙ v,
    )

count_before-close :
    (s : Supervisor) (o : Option ℕ) (t now n : ℕ)
    → o ≡ some t
    → now - t ≤ s.time_window
    → count_before s o now n ≡ n
unfolding count_before
count_before-close s none t now n e h = ground arith
count_before-close s (some t') t now n e h = ground (arith, h)

count_before-apart :
    (s : Supervisor) (o : Option ℕ) (t now n : ℕ)
    → o ≡ some t
    → s.time_window < now - t
    → count_before s o now n ≡ 0
unfolding count_before
count_before-apart s none t now n e h = ground arith
count_before-apart s (some t') t now n e h = ground (arith, h)

crash_loop_from :
    (s : Supervisor) (w : WorkerEntry) (r : Round) (rs : List Round) (n : ℕ)
    → count_before s w.last_crash_at r.now w.restart_count ≡ n
    → All IsCrash (r ∷ rs)
    → AreClose s.time_window r.now rs
    → length rs + n ≡ s.max_restarts
    → Ends (run_worker s w (r ∷ rs)) (backoffs s (suc n) (length rs)) (ended exceeded)
crash_loop_from s w r [] n c (a, _) close l = run_worker-last s w r [] a (omega (arith, c, l))
crash_loop_from s w r (r' ∷ rs) n c (a, b) (near, close) l =
    run_worker-next s w r (r' ∷ rs) (backoffs s (suc (suc n)) (length rs)) (ended exceeded) (suc n)
      a (ap suc c) (omega (arith, l))
      (λ w' k t.
        crash_loop_from s w' r' rs (suc n)
          (count_before-close s w'.last_crash_at r.now r'.now w'.restart_count t near ∙ k) b close
          (omega (arith, l)))

-- A worker that crashes max_restarts + 1 times, each time within the window after the crash before,
-- is restarted max_restarts times, with the backoffs of the crashes number 1, 2, and so on as waits;
-- then the supervisor gives up.
pub crash_loop :
    (s : Supervisor) (id : String) (r : Round) (rs : List Round)
    → All IsCrash (r ∷ rs)
    → AreClose s.time_window r.now rs
    → length rs ≡ s.max_restarts
    → ((run_worker s (add_worker id) (r ∷ rs)).waits ≡ backoffs s 1 s.max_restarts)
      × ((run_worker s (add_worker id) (r ∷ rs)).end ≡ ended exceeded)
unfolding add_worker count_before
crash_loop s id r rs a close l =
    let (u, v) = crash_loop_from s (add_worker id) r rs 0 refl a close (omega (arith, l)) in
    (u ∙ ap (λ n. backoffs s 1 n) l, v)

slow_crashes_from :
    (s : Supervisor) (w : WorkerEntry) (t : ℕ) (rs : List Round)
    → w.last_crash_at ≡ some t
    → All IsCrash rs
    → AreApart s.time_window t rs
    → 1 ≤ s.max_restarts
    → Ends (run_worker s w rs) (copies (backoff s 1) (length rs)) running
slow_crashes_from s w t [] l a apart m = unfold run_worker in (refl, refl)
slow_crashes_from s w t (r ∷ rs) l (a, b) (far, apart) m =
    run_worker-next s w r rs (copies (backoff s 1) (length rs)) running 1 a
      (ap suc (count_before-apart s w.last_crash_at t r.now w.restart_count l far)) m
      (λ w' k t'. slow_crashes_from s w' r.now rs t' b apart m)

-- A worker whose crashes are more than the window apart is restarted after every one of them, each
-- time with the first backoff, if one restart is allowed.
pub slow_crashes :
    (s : Supervisor) (id : String) (r : Round) (rs : List Round)
    → All IsCrash (r ∷ rs)
    → AreApart s.time_window r.now rs
    → 1 ≤ s.max_restarts
    → ((run_worker s (add_worker id) (r ∷ rs)).waits ≡ copies (backoff s 1) (length (r ∷ rs)))
      × ((run_worker s (add_worker id) (r ∷ rs)).end ≡ running)
unfolding add_worker count_before
slow_crashes s id r rs (a, b) apart m =
    run_worker-next s (add_worker id) r rs (copies (backoff s 1) (length rs)) running 1 a refl m
      (λ w' k t. slow_crashes_from s w' r.now rs t b apart m)
