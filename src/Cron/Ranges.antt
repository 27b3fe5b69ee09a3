-- ===== src/Cron/Ranges.antt =====
-- The loop over a range: what it allows, and the one end with which it never ends.
use polarisagi_harness.Prelude.{
  ℕ, zero, suc, ◌+◌, ◌*◌, ◌^◌, ◌≤◌, ◌<◌, ◌≡◌, ◌↔◌, ◌⊎◌, inl, inr, refl, sym, ◌∙◌, true, false, ◌&&◌,
  List, Bool-cases, arith, leb, ltb, ◌==◌,
}
use polarisagi_harness.Text.{ℤ, pos, negsuc}
use polarisagi_harness.Cron.{ok, hangs, max_int, add_int, leb_ℤ, note, add_range, member}

-- A value that the loop meets and that lies within the field's bounds.
abbrev pub IsHit : ℕ → ℕ → ℕ → ℕ → ℕ → ℕ → Type 0
IsHit min max lo hi step v = (k : ℕ) × (v ≡ lo + k * step) × (v ≤ hi) × (min ≤ v) × (v ≤ max)

member-note :
    (min max a v : ℕ) (acc : List ℕ)
    → member v (note min max (pos a) acc) ≡ true
    → (member v acc ≡ true) ⊎ ((v ≡ a) × (min ≤ a) × (a ≤ max))
unfolding member note
member-note min max a v acc e = elim (Bool-cases (leb min a && leb a max)) [
  | inr n ↦ inl (rw n at e)
  | inl t ↦ elim (Bool-cases (a == v)) [
    | inl q ↦ inr (ground (arith, q), ground (arith, t), ground (arith, t))
    | inr q ↦ inl (ground (arith, e, t, q))
  ]
]

note-member :
    (min max a v : ℕ) (acc : List ℕ)
    → (member v acc ≡ true) ⊎ ((v ≡ a) × (min ≤ a) × (a ≤ max))
    → member v (note min max (pos a) acc) ≡ true
unfolding member note
note-member min max a v acc (inl m) = ground (arith, m)
note-member min max a v acc (inr (q, l, h)) = ground (arith, q, l, h)

next_hit : (lo k step : ℕ) → lo + step + k * step ≡ lo + suc k * step
next_hit lo k step = grind arith

add_int-small : (l step : ℕ) → l + step < 2 ^ 63 → add_int (pos l) step ≡ pos (l + step)
unfolding add_int
add_int-small l step h = ground (arith, h)

-- The members after a round, and those that later rounds hit.
module _ (min max lo hi step v : ℕ) (acc : List ℕ) where
  IsHit-later :
      (member v (note min max (pos lo) acc) ≡ true) ⊎ IsHit min max (lo + step) hi step v
      → lo ≤ hi
      → (member v acc ≡ true) ⊎ IsHit min max lo hi step v
  IsHit-later (inl m) h = elim (member-note min max lo v acc m) [
    | inl a ↦ inl a
    | inr (q, l, u) ↦
        inr (0, omega (arith, q), omega (arith, q, h), omega (arith, q, l), omega (arith, q, u))
  ]
  IsHit-later (inr (k, q, l, a, b)) h = inr (suc k, q ∙ next_hit lo k step, l, a, b)

  IsHit-sooner :
      (member v acc ≡ true) ⊎ IsHit min max lo hi step v
      → (member v (note min max (pos lo) acc) ≡ true) ⊎ IsHit min max (lo + step) hi step v
  IsHit-sooner (inl m) = inl (note-member min max lo v acc (inl m))
  IsHit-sooner (inr (zero, q, l, a, b)) = inl (
      note-member min max lo v acc
        (inr (omega (arith, q), omega (arith, q, a), omega (arith, q, b))))
  IsHit-sooner (inr (suc k, q, l, a, b)) = inr (k, q ∙ sym (next_hit lo k step), l, a, b)

add_range_over :
    (fuel min max lo hi step : ℕ) (acc : List ℕ)
    → hi < lo
    → (out : List ℕ) × (add_range (suc fuel) min max (pos hi) step (pos lo) acc ≡ ok out)
      × ((v : ℕ) → (member v out ≡ true) ↔ ((member v acc ≡ true) ⊎ IsHit min max lo hi step v))
unfolding add_range leb_ℤ
add_range_over fuel min max lo hi step acc h =
    let n : leb lo hi ≡ false = ground (arith, h) in
    (
      acc,
      rw n,
      λ v. (inl, λ x. elim x [ inl m ↦ m | inr (k, q, l, a, b) ↦ absurd (omega (arith, h, q, l)) ]),
    )

-- The loop from lo to hi adds, to what is allowed already, the values lo, lo + step, lo + 2 * step and
-- so on up to hi that are within the bounds, and no others; as many rounds as there are numbers from
-- lo to hi, and one more, are enough. The end must leave room for a step below 2 ^ 63.
pub add_range_exact :
    (fuel min max lo hi step : ℕ) (acc : List ℕ)
    → 0 < step
    → hi + step < 2 ^ 63
    → hi < lo + fuel
    → (out : List ℕ) × (add_range (suc fuel) min max (pos hi) step (pos lo) acc ≡ ok out)
      × ((v : ℕ) → (member v out ≡ true) ↔ ((member v acc ≡ true) ⊎ IsHit min max lo hi step v))
unfolding add_range leb_ℤ
add_range_exact zero min max lo hi step acc p s f =
    add_range_over zero min max lo hi step acc (omega (arith, f))
add_range_exact (suc fuel) min max lo hi step acc p s f = elim (Bool-cases (leb lo hi)) [
  | inr n ↦ add_range_over (suc fuel) min max lo hi step acc (ground (arith, n))
  | inl t ↦
      let (out, e, m) =
        add_range_exact fuel min max (lo + step) hi step (note min max (pos lo) acc) p s
          (omega (arith, f, p)) in
      (
        out,
        rw (t, add_int-small lo step (ground (arith, t, s))) e,
        λ v. (
          λ x. IsHit-later min max lo hi step v acc ((m v).0 x) (ground (arith, t)),
          λ x. (m v).1 (IsHit-sooner min max lo hi step v acc x),
        ),
      )
]

-- The values of an int.
abbrev pub IsInt : ℤ → Type 0
IsInt (pos a) = a < 2 ^ 63
IsInt (negsuc a) = a < 2 ^ 63

add_int-IsInt : (v : ℤ) (step : ℕ) → IsInt v → step < 2 ^ 63 → IsInt (add_int v step)
unfolding add_int
add_int-IsInt (pos a) step h l = elim (Bool-cases (ltb (a + step) (2 ^ 63))) [
  | inl t ↦ rw t (ground (arith, t))
  | inr n ↦ rw n (ground (arith, n, h, l))
]
add_int-IsInt (negsuc a) step h l = elim (Bool-cases (leb step a)) [
  | inl t ↦ rw t (ground (arith, t, h))
  | inr n ↦ rw n (ground (arith, n, h, l))
]

leb_ℤ-max : (v : ℤ) → IsInt v → leb_ℤ v (pos max_int) ≡ true
unfolding leb_ℤ
leb_ℤ-max (pos a) h = ground (arith, h)
leb_ℤ-max (negsuc a) h = refl

-- The loop of a range that ends at the largest int never ends: its test holds for every int, and the
-- sum wraps around.
pub maximal_range_hangs :
    (fuel min max step : ℕ) (lo : ℤ) (acc : List ℕ)
    → IsInt lo
    → step < 2 ^ 63
    → add_range fuel min max (pos max_int) step lo acc ≡ hangs
unfolding add_range
maximal_range_hangs zero min max step lo acc h l = refl
maximal_range_hangs (suc fuel) min max step lo acc h l = rw (leb_ℤ-max lo h) (
    maximal_range_hangs fuel min max step (add_int lo step) (note min max lo acc)
      (add_int-IsInt lo step h l) l)
