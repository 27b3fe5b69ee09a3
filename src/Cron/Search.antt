-- ===== src/Cron/Search.antt =====
-- The search of the next time: the first match among the minutes after a time.
use mathlib.Core.Path.{subst}
use polarisagi_harness.Prelude.{
  ℕ, zero, suc, ◌+◌, ◌-◌, ◌*◌, ◌/◌, ◌%◌, ◌≤◌, ◌<◌, ◌≡◌, ap, ◌∙◌, inl, inr, true, false, Option,
  none, some, Bool-cases, arith, ltb, ◌==◌,
}
use polarisagi_harness.Cron.{
  CronSchedule, Calendar, matches, minute_ns, max_cron_lookahead, search_from, next_after,
}

some-inj : (x u : ℕ) → some x ≡ some u → x ≡ u
some-inj x u e = ground arith

module _ (cs : CronSchedule) (cal : Calendar) where
  -- No match among the first k minutes from t on.
  abbrev Unmatched : ℕ → ℕ → Type 0
  Unmatched t k = (j : ℕ) → j < k → matches cs (cal (t + j * minute_ns)) ≡ false

  abbrev Found : ℕ → ℕ → Option ℕ → Type 0
  Found left t none = Unmatched t left
  Found left t (some u) =
      (k : ℕ) × (k < left) × (u ≡ t + k * minute_ns) × (matches cs (cal u) ≡ true) × Unmatched t k

  Unmatched-suc :
      (t k : ℕ) → matches cs (cal t) ≡ false → Unmatched (t + minute_ns) k → Unmatched t (suc k)
  Unmatched-suc t k e f zero h = ap (λ x. matches cs (cal x)) (omega arith) ∙ e
  Unmatched-suc t k e f (suc j) h =
      ap (λ x. matches cs (cal x)) (omega arith) ∙ f j (omega (arith, h))

  Found-suc :
      (left t : ℕ) (o : Option ℕ)
      → matches cs (cal t) ≡ false
      → Found left (t + minute_ns) o
      → Found (suc left) t o
  Found-suc left t none e f = Unmatched-suc t left e f
  Found-suc left t (some u) e (k, h, q, m, f) =
      (suc k, omega (arith, h), omega (arith, q), m, Unmatched-suc t k e f)

  search_from-Found : (left t : ℕ) → Found left t (search_from left cs cal t)
  unfolding search_from
  search_from-Found zero t = λ j h. absurd (omega (arith, h))
  search_from-Found (suc left) t = elim (Bool-cases (matches cs (cal t))) [
    | inl m ↦ rw m (0, omega arith, omega arith, m, λ j h. absurd (omega (arith, h)))
    | inr n ↦ rw n (
        Found-suc left t (search_from left cs cal (t + minute_ns)) n
          (search_from-Found left (t + minute_ns)))
  ]

  abbrev first_minute : ℕ → ℕ
  first_minute from = from - from % minute_ns + minute_ns

  -- A full minute after `from` is one of those that the search visits.
  minute_index :
      (from v : ℕ)
      → v % minute_ns ≡ 0
      → from < v
      → v ≡ first_minute from + (v - first_minute from) / minute_ns * minute_ns
  minute_index from v m h = omega arith

  -- What NextAfter promises of its result.
  abbrev pub IsNext : ℕ → Option ℕ → Type 0
  IsNext from none =
      (v : ℕ)
      → v % minute_ns ≡ 0
      → from < v
      → v < from + max_cron_lookahead * minute_ns
      → matches cs (cal v) ≡ false
  IsNext from (some u) =
      (from < u)
      × (u % minute_ns ≡ 0)
      × (matches cs (cal u) ≡ true)
      × ((v : ℕ) → v % minute_ns ≡ 0 → from < v → v < u → matches cs (cal v) ≡ false)

  Unmatched-at :
      (from k v : ℕ)
      → Unmatched (first_minute from) k
      → v % minute_ns ≡ 0
      → from < v
      → v < first_minute from + k * minute_ns
      → matches cs (cal v) ≡ false
  Unmatched-at from k v f m h l =
      ap (λ x. matches cs (cal x)) (minute_index from v m h)
      ∙ f ((v - first_minute from) / minute_ns) (omega arith)

  Found-IsNext :
      (from : ℕ) (o : Option ℕ) → Found max_cron_lookahead (first_minute from) o → IsNext from o
  Found-IsNext from none f = λ v m h l. Unmatched-at from max_cron_lookahead v f m h (omega arith)
  Found-IsNext from (some u) (k, b, q, m, f) = (
    omega (arith, q),
    omega (arith, q),
    m,
    λ v a h l. Unmatched-at from k v f a h (omega (arith, q, l)),
  )

  -- NextAfter returns the first full minute after `from` that matches, in any calendar; where it
  -- returns the zero time, no full minute of the 366 days after `from` matches.
  pub next_after-IsNext : (from : ℕ) → IsNext from (next_after cs cal from)
  unfolding next_after
  next_after-IsNext from =
      Found-IsNext from (search_from max_cron_lookahead cs cal (first_minute from))
        (search_from-Found max_cron_lookahead (first_minute from))

  -- A first match is the first match after every later time before it.
  IsNext-later :
      (from later u : ℕ) → IsNext from (some u) → from ≤ later → later < u → IsNext later (some u)
  IsNext-later from later u (a, b, c, f) h l = (l, b, c, λ v m k e. f v m (omega (arith, h, k)) e)

  -- There is one first match.
  IsNext-unique : (from u v : ℕ) → IsNext from (some u) → IsNext from (some v) → u ≡ v
  IsNext-unique from u v (a, b, c, f) (a', b', c', g) = elim (Bool-cases (ltb u v)) [
    | inl t ↦ ground (arith, g u b a, t, c)
    | inr n ↦ elim (Bool-cases (ltb v u)) [
      | inl t ↦ ground (arith, f v b' a', t, c')
      | inr m ↦ ground (arith, n, m)
    ]
  ]

  Found-bound :
      (from u : ℕ) (o : Option ℕ)
      → Found max_cron_lookahead (first_minute from) o
      → o ≡ some u
      → u ≤ from + max_cron_lookahead * minute_ns
  Found-bound from u none f e = ground arith
  Found-bound from u (some x) (k, b, q, m, f) e = omega (arith, q, b, some-inj x u e)

  next_after-bound :
      (from u : ℕ) → next_after cs cal from ≡ some u → u ≤ from + max_cron_lookahead * minute_ns
  unfolding next_after
  next_after-bound from u e =
      Found-bound from u (search_from max_cron_lookahead cs cal (first_minute from))
        (search_from-Found max_cron_lookahead (first_minute from)) e

  is_first :
      (from u : ℕ) (o : Option ℕ)
      → IsNext from o
      → IsNext from (some u)
      → u < from + max_cron_lookahead * minute_ns
      → o ≡ some u
  is_first from u none f (a, b, c, g) h = absurd (ground (arith, f u b a h, c))
  is_first from u (some v) f g h = ap some (IsNext-unique from v u f g)

  -- A search that starts between a time and its next match finds the same match.
  pub next_after-again :
      (from later u : ℕ)
      → next_after cs cal from ≡ some u
      → from ≤ later
      → later < u
      → next_after cs cal later ≡ some u
  next_after-again from later u e h l = elim (Bool-cases (from == later)) [
    | inl t ↦ ap (next_after cs cal) (ground (arith, t)) ∙ e
    | inr n ↦
        is_first later u (next_after cs cal later) (next_after-IsNext later)
          (IsNext-later from later u (subst (IsNext from) e (next_after-IsNext from)) h l)
          (ground (arith, n, next_after-bound from u e, h))
  ]
