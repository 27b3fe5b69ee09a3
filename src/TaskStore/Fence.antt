-- ===== src/TaskStore/Fence.antt =====
-- The version of a row: it rises with every change, so that an unchanged version is an unchanged row.
use mathlib.Core.Path.{subst}
use polarisagi_harness.Prelude.{
  ℕ, suc, ◌*◌, ◌≤◌, ◌<◌, ◌≡◌, refl, ap, ◌∙◌, ◌⊎◌, inl, inr, Bool, true, false, Option, none, some,
  List, String, All, arith,
}
use polarisagi_harness.TaskStore.Stamp.{Stamp, unix, second}
use polarisagi_harness.TaskStore.Rows.{Row, running, in_status, names, find}
use polarisagi_harness.TaskStore.Table.{in_status_eq}
use polarisagi_harness.TaskStore.Handlers.{
  Store, returned, claim_row, stop_row, check_lease, check_row, side_effect_pre_check,
}
use polarisagi_harness.TaskStore.Reaping.{reap_row}
use polarisagi_harness.TaskStore.Change.{
  Updates, claims, starts, completes, fails, renews, suspends, approves, denies, begins, undoes,
  stops, reaps, Change, stays, creates, updates, removes, after,
}
use polarisagi_harness.TaskStore.Board.{Op, run_ops, new_board}
use polarisagi_harness.TaskStore.Changes.{Allows, run_ops-Follows, any_Allows, new_board-Unique}

Updates-version : {r s : Row} → Updates r s → s.version ≡ suc r.version
unfolding claim_row stop_row reap_row
Updates-version (claims agent now e) = refl
Updates-version (starts now e) = refl
Updates-version (completes now e) = refl
Updates-version (fails now e) = refl
Updates-version (renews now t e) = refl
Updates-version (suspends now t e) = refl
Updates-version (approves now t e) = refl
Updates-version (denies now t e) = refl
Updates-version (begins now t e) = refl
Updates-version (undoes now e) = refl
Updates-version (stops reason now e) = refl
Updates-version (reaps now e) = refl

-- The row is there as it was, or its version has risen.
abbrev pub Fenced : Option Row → Option Row → Type 0
Fenced none p = Unit
Fenced (some r) none = ⊥
Fenced (some r) (some s) = (s ≡ r) ⊎ (r.version < s.version)

Fenced-refl : (o : Option Row) → Fenced o o
Fenced-refl none = tt
Fenced-refl (some r) = inl refl

Fenced-trans : (a b c : Option Row) → Fenced a b → Fenced b c → Fenced a c
Fenced-trans none b c f g = tt
Fenced-trans (some r) (some s) (some t) (inl e) (inl e') = inl (e' ∙ e)
Fenced-trans (some r) (some s) (some t) (inl e) (inr l) =
    inr (omega (arith, l, ap (λ (x : Row). x.version) e))
Fenced-trans (some r) (some s) (some t) (inr k) (inl e) =
    inr (omega (arith, k, ap (λ (x : Row). x.version) e))
Fenced-trans (some r) (some s) (some t) (inr k) (inr l) = inr (omega (arith, k, l))
Fenced-trans (some r) none c f g = absurd f
Fenced-trans (some r) (some s) none f g = absurd g

Change-Fenced : {o p : Option Row} → Change false o p → Fenced o p
Change-Fenced {o} stays = Fenced-refl o
Change-Fenced (creates t now) = tt
Change-Fenced (updates u) = inr (omega (arith, Updates-version u))
Change-Fenced (removes now e g) = absurd (ground (arith, e))
Change-Fenced (after {a} {b} {c} x y) = Fenced-trans a b c (Change-Fenced x) (Change-Fenced y)

check_lease-returned :
    (r : Row) (agent : String) (v now : ℕ) (o : Option Stamp)
    → check_lease r agent v now o ≡ returned
    → (r.version ≡ v)
      × (in_status running r ≡ true)
      × (names r.claimed_by agent ≡ true)
      × (t : Stamp) × (o ≡ some t)
      × (now ≤ unix t * second)
unfolding check_lease
check_lease-returned r agent v now none e = ground arith
check_lease-returned r agent v now (some t) e =
    (ground arith, ground arith, ground arith, t, refl, ground arith)

-- What a check that passes has found.
check_row-returned :
    (o : Option Row) (agent : String) (v now : ℕ)
    → check_row o agent v now ≡ returned
    → (r : Row) × (o ≡ some r)
      × (r.version ≡ v)
      × (r.status ≡ running)
      × (names r.claimed_by agent ≡ true)
      × (t : Stamp) × (r.expires_at ≡ some t)
      × (now ≤ unix t * second)
unfolding check_row
check_row-returned none agent v now e = ground arith
check_row-returned (some r) agent v now e =
    let (version, live, mine, t, x, later) = check_lease-returned r agent v now r.expires_at e in
    (r, refl, version, in_status_eq running r live, mine, t, x, later)

up_of :
    (up : Bool) (b : Store) (id agent : String) (v now : ℕ)
    → side_effect_pre_check up b id agent v now ≡ returned
    → check_row (find id b.rows) agent v now ≡ returned
unfolding side_effect_pre_check
up_of up b id agent v now e = ground arith

Fenced-same :
    (r : Row) (o : Option Row) (s : Row)
    → Fenced (some r) o
    → o ≡ some s
    → s.version ≡ r.version
    → s ≡ r
Fenced-same r none s f e v = ground arith
Fenced-same r (some x) s (inl q) e v = ground (arith, q, e)
Fenced-same r (some x) s (inr l) e v = absurd (ground (arith, l, e, v))

-- The check before a side effect: if it passes with the version that the task had earlier, then the
-- task's row is the very same as it was then, whatever was done to the board in between but for the
-- removal of garbage; it is running, held by the agent, and its lease has not run out.
pub precheck_unchanged :
    (past os : List (Bool × ℕ × Op)) (id agent : String) (r : Row) (up : Bool) (now : ℕ)
    → let b = run_ops new_board past in
      find id b.store.rows ≡ some r
      → All (λ (x : Bool × ℕ × Op). Allows false x.2) os
      → side_effect_pre_check up (run_ops b os).store id agent r.version now ≡ returned
      → (find id (run_ops b os).store.rows ≡ some r)
        × (r.status ≡ running)
        × (names r.claimed_by agent ≡ true)
        × (t : Stamp) × (r.expires_at ≡ some t)
        × (now ≤ unix t * second)
precheck_unchanged past os id agent r up now f a e =
    let b = run_ops new_board past in
    let u = (run_ops-Follows true new_board past (any_Allows past) new_board-Unique).0 in
    let fenced =
      subst (λ o. Fenced o (find id (run_ops b os).store.rows)) f
        (Change-Fenced ((run_ops-Follows false b os a u).1 id)) in
    let (s, q, v, live, mine, t, x, later) =
      check_row-returned (find id (run_ops b os).store.rows) agent r.version now
        (up_of up (run_ops b os).store id agent r.version now e) in
    let same = Fenced-same r (find id (run_ops b os).store.rows) s fenced q v in
    subst
      (λ (y : Row).
        (find id (run_ops b os).store.rows ≡ some y)
        × (y.status ≡ running)
        × (names y.claimed_by agent ≡ true)
        × (z : Stamp) × (y.expires_at ≡ some z)
        × (now ≤ unix z * second))
      same (q, live, mine, t, x, later)
