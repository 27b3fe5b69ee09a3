-- ===== src/ContextWindow/Eviction.antt =====
-- One eviction: what goes and what stays.
use mathlib.Core.Path.{subst}
use polarisagi_harness.Prelude.{
  ℕ, zero, suc, ◌+◌, ◌-◌, ◌≤◌, ◌≡◌, refl, sym, ap, ◌∙◌, ◌⊎◌, inl, inr, Bool, true, false, Option,
  none, some, List, [], ◌∷◌, length, All, arith, Option-cases, if◌then◌else◌,
}
use polarisagi_harness.ContextWindow.{
  Message, is_system, score, better, lowest, remove_at, evicted, evict_by_score,
}

-- The system messages of a list, in order.
abbrev pub systems : List Message → List Message
systems [] = []
systems (m ∷ ms) = let rest = systems ms in if is_system m.role then m ∷ rest else rest

-- The message at an index.
abbrev pub get_elem? : List Message → ℕ → Option Message
get_elem? [] i = none
get_elem? (m ∷ ms) zero = some m
get_elem? (m ∷ ms) (suc i) = get_elem? ms i

-- `a` is what is left of `b` without the element at the index.
remove_at-lem :
    (ms : List Message) (i : ℕ) (m : Message)
    → get_elem? ms i ≡ some m
    → is_system m.role ≡ false
    → (systems (remove_at ms i) ≡ systems ms) × (suc (length (remove_at ms i)) ≡ length ms)
unfolding remove_at
remove_at-lem [] i m e h = absurd (ground (arith, e))
remove_at-lem (x ∷ ms) zero m e h = (ground (arith, e, h), refl)
remove_at-lem (x ∷ ms) (suc i) m e h =
    let (s, l) = remove_at-lem ms i m e h in (ground (arith, s), omega (arith, l))

-- The index that the loop finds: it was found before, or stands in the list at a message that is not
-- a system message, at the score that the loop gives it.
IsFound : List Message → ℕ → ℕ → Option (ℕ × ℕ) → ℕ → ℕ → Type 0
IsFound ms i threshold best j s =
    (best ≡ some (j, s))
    ⊎ ((k : ℕ) × (m : Message) × (j ≡ i + k)
        × (get_elem? ms k ≡ some m)
        × (is_system m.role ≡ false)
        × (s ≡ score m j threshold))

better-found :
    (m : Message) (i threshold : ℕ) (best : Option (ℕ × ℕ)) (j s : ℕ)
    → better m i threshold best ≡ some (j, s)
    → (best ≡ some (j, s)) ⊎ ((j ≡ i) × (is_system m.role ≡ false) × (s ≡ score m i threshold))
unfolding better
better-found m i threshold none j s e = ground (arith, e)
better-found m i threshold (some (k, t)) j s e = ground (arith, e)

lowest-IsFound :
    (ms : List Message) (i threshold : ℕ) (best : Option (ℕ × ℕ)) (j s : ℕ)
    → lowest ms i threshold best ≡ some (j, s)
    → IsFound ms i threshold best j s
unfolding lowest IsFound
lowest-IsFound [] i threshold best j s e = inl e
lowest-IsFound (m ∷ ms) i threshold best j s e =
    elim (lowest-IsFound ms (suc i) threshold (better m i threshold best) j s e) [
      | inr (k, x, p, g, h, q) ↦ inr (suc k, x, omega (arith, p), g, h, q)
      | inl b ↦ elim (better-found m i threshold best j s b) [
        | inl c ↦ inl c
        | inr (p, h, q) ↦
            inr (0, m, omega (arith, p), refl, h, q ∙ ap (λ (x : ℕ). score m x threshold) (sym p))
      ]
    ]

-- Every message from index i on is a system message or scores at least s.
abbrev pub AllAtLeast : List Message → ℕ → ℕ → ℕ → Type 0
AllAtLeast [] i threshold s = Unit
AllAtLeast (m ∷ ms) i threshold s =
    ((is_system m.role ≡ true) ⊎ (s ≤ score m i threshold)) × AllAtLeast ms (suc i) threshold s

better-least :
    (m : Message) (i threshold : ℕ) (best : Option (ℕ × ℕ)) (j t : ℕ)
    → better m i threshold best ≡ some (j, t)
    → ((is_system m.role ≡ true) ⊎ (t ≤ score m i threshold))
      × ((best ≡ none) ⊎ ((k : ℕ) × (u : ℕ) × (best ≡ some (k, u)) × (t ≤ u)))
unfolding better
better-least m i threshold none j t e = (ground (arith, e), inl refl)
better-least m i threshold (some (k, u)) j t e =
    (ground (arith, e), inr (k, u, refl, ground (arith, e)))

better-none :
    (m : Message) (i threshold : ℕ) (best : Option (ℕ × ℕ))
    → better m i threshold best ≡ none
    → (is_system m.role ≡ true) × (best ≡ none)
unfolding better
better-none m i threshold none e = (ground (arith, e), refl)
better-none m i threshold (some (k, u)) e = absurd (ground (arith, e))

lowest-least :
    (ms : List Message) (i threshold : ℕ) (best : Option (ℕ × ℕ)) (j s : ℕ)
    → lowest ms i threshold best ≡ some (j, s)
    → AllAtLeast ms i threshold s
      × ((best ≡ none) ⊎ ((k : ℕ) × (u : ℕ) × (best ≡ some (k, u)) × (s ≤ u)))
unfolding lowest
lowest-least [] i threshold best j s e = (tt, inr (j, s, e, omega arith))
lowest-least (m ∷ ms) i threshold best j s e =
    let (all, from) = lowest-least ms (suc i) threshold (better m i threshold best) j s e in
    elim from [
      | inr (k, u, q, h) ↦
          let (here, before) = better-least m i threshold best k u q in
          (
            (elim here [ inl y ↦ inl y | inr y ↦ inr (omega (arith, y, h)) ], all),
            elim before [
              | inl n ↦ inl n
              | inr (k', u', q', h') ↦ inr (k', u', q', omega (arith, h, h'))
            ],
          )
      | inl n ↦
          let (here, before) = better-none m i threshold best n in ((inl here, all), inl before)
    ]

-- The loop finds none only among system messages.
lowest-none :
    (ms : List Message) (i threshold : ℕ) (best : Option (ℕ × ℕ))
    → lowest ms i threshold best ≡ none
    → (best ≡ none) × All (λ m. is_system m.role ≡ true) ms
unfolding lowest
lowest-none [] i threshold best e = (e, tt)
lowest-none (m ∷ ms) i threshold best e =
    let (b, all) = lowest-none ms (suc i) threshold (better m i threshold best) e in
    let (here, before) = better-none m i threshold best b in (before, (here, all))

-- The message that goes: not a system message, of the lowest score among these. The system messages
-- stay as they are.
pub record IsEvicted (ms : List Message) (out : List Message × Bool) : Type 0 where
  pub index : ℕ
  pub victim : Message
  pub found : get_elem? ms index ≡ some victim
  pub evictable : is_system victim.role ≡ false
  pub least : AllAtLeast ms 0 (length ms - 5) (score victim index (length ms - 5))
  pub result : out ≡ (remove_at ms index, true)
  pub keeps : systems out.0 ≡ systems ms
  pub shorter : suc (length out.0) ≡ length ms

remove_at-IsEvicted :
    (ms : List Message) (j s : ℕ)
    → lowest ms 0 (length ms - 5) none ≡ some (j, s)
    → IsFound ms 0 (length ms - 5) none j s
    → IsEvicted ms (remove_at ms j, true)
unfolding IsFound
remove_at-IsEvicted ms j s q (inl e) = absurd (ground (arith, e))
remove_at-IsEvicted ms j s q (inr (k, m, p, g, h, sc)) =
    let g' = ap (get_elem? ms) (omega (arith, p)) ∙ g in
    let (kept, less) = remove_at-lem ms j m g' h in
    record {
      index = j;
      victim = m;
      found = g';
      evictable = h;
      least =
          subst (AllAtLeast ms 0 (length ms - 5)) sc
            (lowest-least ms 0 (length ms - 5) none j s q).0;
      result = refl;
      keeps = kept;
      shorter = less;
    }

-- EvictByScore takes out one message that is not a system message and has the lowest score of these,
-- and leaves the system messages as they are; if there are only system messages it does nothing.
pub evict_by_score_lem :
    (ms : List Message)
    → ((evict_by_score ms ≡ (ms, false)) × All (λ m. is_system m.role ≡ true) ms)
      ⊎ IsEvicted ms (evict_by_score ms)
unfolding evict_by_score evicted
evict_by_score_lem ms = elim (Option-cases (lowest ms 0 (length ms - 5) none)) [
  | inl n ↦ inl (rw n refl, (lowest-none ms 0 (length ms - 5) none n).1)
  | inr ((j, s), q) ↦
      inr (rw q (remove_at-IsEvicted ms j s q (lowest-IsFound ms 0 (length ms - 5) none j s q)))
]
