-- ===== src/Cron/Caching.antt =====
-- The cache of next times: it answers as a fresh evaluation would, as long as time does not go back.
use mathlib.Core.Path.{subst}
use polarisagi_harness.Prelude.{
  ℕ, ◌≤◌, ◌≡◌, refl, sym, ap, ◌∙◌, inl, inr, true, Option, none, some, List, [], ◌∷◌, String,
  Bool-cases, arith, str_eq, str_eq_iff,
}
use polarisagi_harness.Cron.{
  CronSchedule, Calendar, Parsed, ok, bad, hangs, next_after, CronEvalCache, Next, at, bad_timezone,
  bad_expr, no_answer, set_item, is_after, item_of, World, evaluate, zone, remember, next_run,
}
use polarisagi_harness.Cron.Search.{next_after-again}

-- An entry with a time comes from an evaluation not later than `now`.
abbrev Fits : World → String → String → ℕ → Option (Option ℕ) → Type 0
Fits w z e now none = Unit
Fits w z e now (some none) = Unit
Fits w z e now (some (some t)) =
    (cs : CronSchedule) × (cal : Calendar) × (from : ℕ) × (w.schedule e ≡ ok cs)
    × (w.location z ≡ some cal)
    × (from ≤ now)
    × (next_after cs cal from ≡ some t)

IsFaithful : World → ℕ → CronEvalCache → Type 0
IsFaithful w now c = (z e : String) → Fits w z e now (c.items z e)

Fits-later :
    (w : World) (z e : String) (now later : ℕ) (o : Option (Option ℕ))
    → now ≤ later
    → Fits w z e now o
    → Fits w z e later o
Fits-later w z e now later none h f = tt
Fits-later w z e now later (some none) h f = tt
Fits-later w z e now later (some (some t)) h (cs, cal, from, p, q, l, r) =
    (cs, cal, from, p, q, omega (arith, l, h), r)

-- A hit answers what an evaluation would.
hit :
    (w : World) (z e : String) (now from : ℕ) (o : Option (Option ℕ))
    → Fits w z e now o
    → now ≤ from
    → is_after o from ≡ true
    → at (item_of o) ≡ evaluate (w.schedule e) (w.location z) from
unfolding is_after item_of evaluate
hit w z e now from none f h a = ground arith
hit w z e now from (some none) f h a = ground arith
hit w z e now from (some (some t)) (cs, cal, from', p, q, l, r) h a =
    rw (p, q)
      (ap at
        (sym (next_after-again cs cal from' from t r (omega (arith, l, h)) (ground (arith, a)))))

-- What an evaluation stores is faithful.
evaluate-Fits :
    (w : World) (z e : String) (from : ℕ) (p : Parsed CronSchedule) (l : Option Calendar)
    (o : Option ℕ)
    → w.schedule e ≡ p
    → w.location z ≡ l
    → evaluate p l from ≡ at o
    → Fits w z e from (some o)
unfolding evaluate
evaluate-Fits w z e from p none o a b c = ground arith
evaluate-Fits w z e from bad (some cal) o a b c = ground arith
evaluate-Fits w z e from hangs (some cal) o a b c = ground arith
evaluate-Fits w z e from (ok cs) (some cal) none a b c = tt
evaluate-Fits w z e from (ok cs) (some cal) (some t) a b c =
    (cs, cal, from, a, b, omega arith, ground (arith, c))

set_item-IsFaithful :
    (w : World) (now : ℕ) (c : CronEvalCache) (z e : String) (o : Option ℕ)
    → IsFaithful w now c
    → Fits w z e now (some o)
    → IsFaithful w now (set_item c z e o)
unfolding IsFaithful set_item
set_item-IsFaithful w now c z e o f g z' e' = elim (Bool-cases (str_eq z z')) [
  | inr n ↦ rw n (f z' e')
  | inl s ↦ elim (Bool-cases (str_eq e e')) [
    | inr n ↦ rw (s, n) (f z' e')
    | inl t ↦
        rw (s, t)
          (subst (λ y. Fits w z' y now (some o)) ((str_eq_iff e e').0 t)
            (subst (λ y. Fits w y e now (some o)) ((str_eq_iff z z').0 s) g))
  ]
]

remember-IsFaithful :
    (w : World) (now : ℕ) (c : CronEvalCache) (z e : String) (r : Next)
    → IsFaithful w now c
    → ((o : Option ℕ) → r ≡ at o → Fits w z e now (some o))
    → IsFaithful w now (remember c z e r)
unfolding remember
remember-IsFaithful w now c z e (at o) f g = set_item-IsFaithful w now c z e o f (g o refl)
remember-IsFaithful w now c z e bad_timezone f g = f
remember-IsFaithful w now c z e bad_expr f g = f
remember-IsFaithful w now c z e no_answer f g = f

next_run_lem :
    (w : World) (now from : ℕ) (c : CronEvalCache) (e tz : String)
    → IsFaithful w now c
    → now ≤ from
    → ((next_run w c e tz from).1 ≡ evaluate (w.schedule e) (w.location (zone tz)) from)
      × IsFaithful w from (next_run w c e tz from).0
unfolding next_run IsFaithful
next_run_lem w now from c e tz f h =
    let grown : IsFaithful w from c =
      unfold IsFaithful in λ z y. Fits-later w z y now from (c.items z y) h (f z y) in
    elim (Bool-cases (is_after (c.items (zone tz) e) from)) [
      | inl t ↦ rw t (hit w (zone tz) e now from (c.items (zone tz) e) (f (zone tz) e) h t, grown)
      | inr n ↦ rw n (
        refl,
        remember-IsFaithful w from c (zone tz) e _ grown
            (λ o q. evaluate-Fits w (zone tz) e from _ _ o refl refl q),
      )
    ]

pub record Query : Type 0 where
  pub expr : String
  pub tz : String
  pub from : ℕ

pub answers : World → CronEvalCache → List Query → List Next
answers w c [] = []
answers w c (q ∷ qs) = let (c', r) = next_run w c q.expr q.tz q.from in r ∷ answers w c' qs

-- An evaluation of every query, without a cache.
pub evaluations : World → List Query → List Next
evaluations w [] = []
evaluations w (q ∷ qs) =
    evaluate (w.schedule q.expr) (w.location (zone q.tz)) q.from ∷ evaluations w qs

-- The queries' times do not go back.
abbrev pub Ascending : ℕ → List Query → Type 0
Ascending now [] = Unit
Ascending now (q ∷ qs) = (now ≤ q.from) × Ascending q.from qs

answers_from :
    (w : World) (now : ℕ) (c : CronEvalCache) (qs : List Query)
    → IsFaithful w now c
    → Ascending now qs
    → answers w c qs ≡ evaluations w qs
unfolding answers evaluations
answers_from w now c [] f a = refl
answers_from w now c (q ∷ qs) f (h, a) =
    let (e, g) = next_run_lem w now q.from c q.expr q.tz f h in
    ap (λ x. x ∷ answers w (next_run w c q.expr q.tz q.from).0 qs) e
    ∙ ap (λ x. evaluate (w.schedule q.expr) (w.location (zone q.tz)) q.from ∷ x)
        (answers_from w q.from (next_run w c q.expr q.tz q.from).0 qs g a)

abbrev pub new_cache : CronEvalCache
new_cache = record { items = λ tz expr. none }

-- The cache cannot be seen: queries whose times do not go back are answered as if each were evaluated
-- afresh, errors included, for any mix of expressions and time zones.
pub cache_transparent :
    (w : World) (qs : List Query) → Ascending 0 qs → answers w new_cache qs ≡ evaluations w qs
cache_transparent w qs a = answers_from w 0 new_cache qs (unfold IsFaithful in λ z e. tt) a
