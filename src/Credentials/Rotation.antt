-- ===== src/Credentials/Rotation.antt =====
-- Pick finds a credential whenever one is available, in every state of a pool.
use mathlib.Core.Path.{subst}
use polarisagi_harness.Prelude.{
  ℕ, zero, suc, ◌+◌, ◌-◌, ◌%◌, ◌≤◌, ◌<◌, ◌≡◌, refl, ◌∙◌, ◌⊎◌, inl, inr, false, Option, none, some,
  List, [], ◌∷◌, length, ltb, leb, arith, All, Bool-cases, mod_lt, mod_below, mod_above,
}
use polarisagi_harness.Credentials.{
  SelectStrategy, fill_first, round_robin, random, least_used, PooledCredential, available,
  get_elem?, is_available_at, pick_fill_first, pick_round_robin, available_from, index_at,
  pick_random, less_used, least_used_from, index_of, pick_least_used, picked,
}

-- Every credential is cooling down.
abbrev pub AllCooling : List PooledCredential → ℕ → Type 0
AllCooling cs now = All (λ c. available c now ≡ false) cs

pick_fill_first-none :
    (cs : List PooledCredential) (now k : ℕ) → pick_fill_first cs now k ≡ none → AllCooling cs now
unfolding pick_fill_first
pick_fill_first-none [] now k e = tt
pick_fill_first-none (c ∷ cs) now k e =
    (ground (arith, e), pick_fill_first-none cs now (suc k) (ground (arith, e)))

index_at-none : (xs : List ℕ) (k : ℕ) → index_at xs k ≡ none → length xs ≤ k
unfolding index_at
index_at-none [] k e = omega arith
index_at-none (x ∷ xs) zero e = absurd (ground (arith, e))
index_at-none (x ∷ xs) (suc k) e = omega (arith, index_at-none xs k e)

available_from-empty :
    (cs : List PooledCredential) (now k : ℕ)
    → length (available_from cs now k) ≡ 0
    → AllCooling cs now
unfolding available_from
available_from-empty [] now k e = tt
available_from-empty (c ∷ cs) now k e =
    (ground (arith, e), available_from-empty cs now (suc k) (ground (arith, e)))

pick_random-none :
    (cs : List PooledCredential) (now draw : ℕ) → pick_random cs now draw ≡ none → AllCooling cs now
unfolding pick_random
pick_random-none cs now draw e =
    let n = length (available_from cs now 0) in
    let low = index_at-none (available_from cs now 0) (draw % n) e in
    available_from-empty cs now 0 (elim (Bool-cases (ltb 0 n)) [
      | inl t ↦ absurd (omega (arith, low, mod_lt draw n (ground (arith, t))))
      | inr f ↦ ground (arith, f)
    ])

less_used-none :
    (c : PooledCredential) (now k : ℕ) (chosen : Option (ℕ × ℕ))
    → less_used c now k chosen ≡ none
    → (chosen ≡ none) × (available c now ≡ false)
unfolding less_used
less_used-none c now k none e = (refl, ground (arith, e))
less_used-none c now k (some (j, m)) e = absurd (ground (arith, e))

least_used_from-none :
    (cs : List PooledCredential) (now k : ℕ) (chosen : Option (ℕ × ℕ))
    → least_used_from cs now k chosen ≡ none
    → (chosen ≡ none) × AllCooling cs now
unfolding least_used_from
least_used_from-none [] now k chosen e = (e, tt)
least_used_from-none (c ∷ cs) now k chosen e =
    let (q, all) = least_used_from-none cs now (suc k) (less_used c now k chosen) e in
    let (p, f) = less_used-none c now k chosen q in (p, (f, all))

index_of-none : (o : Option (ℕ × ℕ)) → index_of o ≡ none → o ≡ none
unfolding index_of
index_of-none none e = refl
index_of-none (some (i, n)) e = absurd (ground (arith, e))

-- A round robin that finds none has looked at every index of its rounds.
pick_round_robin-none :
    (cs : List PooledCredential) (now cursor left i r : ℕ)
    → pick_round_robin cs now cursor left i ≡ none
    → i ≤ r
    → r < i + left
    → is_available_at (get_elem? cs ((cursor + r) % length cs)) now ≡ false
unfolding pick_round_robin
pick_round_robin-none cs now cursor zero i r e h k = absurd (omega (arith, h, k))
pick_round_robin-none cs now cursor (suc left) i r e h k = elim (Bool-cases (leb r i)) [
  | inl t ↦
      let p : i ≡ r = ground (arith, t, h) in
      subst (λ x. is_available_at (get_elem? cs ((cursor + x) % length cs)) now ≡ false) p
        (ground (arith, e))
  | inr f ↦
      pick_round_robin-none cs now cursor left (suc i) r (ground (arith, e)) (ground (arith, f))
        (omega (arith, k))
]

-- Each index is looked at in some round, if the cursor is an index.
round_of : (n cursor d : ℕ) → cursor < n → d < n → (r : ℕ) × (r < n) × ((cursor + r) % n ≡ d)
round_of n cursor d h k = elim (Bool-cases (leb cursor d)) [
  | inl t ↦ (
    d - cursor,
    ground (arith, k),
    mod_below (cursor + (d - cursor)) n (ground (arith, k, t)) ∙ ground (arith, t),
  )
  | inr f ↦ (
    (n - cursor) + d,
    ground (arith, f, h),
    mod_above (cursor + ((n - cursor) + d)) n (ground (arith, h)) (ground (arith, h, k))
        ∙ ground (arith, h),
  )
]

AllCooling-intro :
    (cs : List PooledCredential) (now : ℕ)
    → ((d : ℕ) → d < length cs → is_available_at (get_elem? cs d) now ≡ false)
    → AllCooling cs now
unfolding get_elem? is_available_at
AllCooling-intro [] now f = tt
AllCooling-intro (c ∷ cs) now f =
    (f 0 (omega arith), AllCooling-intro cs now (λ d h. f (suc d) (omega (arith, h))))

-- The cursor is an index, unless the pool is empty.
abbrev pub HasCursor : ℕ → ℕ → Type 0
HasCursor cursor n = (cursor < n) ⊎ ((n ≡ 0) × (cursor ≡ 0))

round_robin-none :
    (cs : List PooledCredential) (now cursor : ℕ)
    → HasCursor cursor (length cs)
    → pick_round_robin cs now cursor (length cs) 0 ≡ none
    → AllCooling cs now
round_robin-none cs now cursor h e = AllCooling-intro cs now λ d k. looked d k h
  where
    looked :
        (d : ℕ)
        → d < length cs
        → HasCursor cursor (length cs)
        → is_available_at (get_elem? cs d) now ≡ false
    looked d k (inr (z, w)) = absurd (omega (arith, k, z))
    looked d k (inl c) =
        let (r, b, q) = round_of (length cs) cursor d c k in
        subst (λ x. is_available_at (get_elem? cs x) now ≡ false) q
          (pick_round_robin-none cs now cursor (length cs) 0 r e (omega arith) (omega (arith, b)))

pub picked-none :
    (s : SelectStrategy) (cs : List PooledCredential) (cursor now draw : ℕ)
    → HasCursor cursor (length cs)
    → picked s cs cursor now draw ≡ none
    → AllCooling cs now
unfolding picked pick_least_used
picked-none fill_first cs cursor now draw h e = pick_fill_first-none cs now 0 e
picked-none round_robin cs cursor now draw h e = round_robin-none cs now cursor h e
picked-none random cs cursor now draw h e = pick_random-none cs now draw e
picked-none least_used cs cursor now draw h e =
    (least_used_from-none cs now 0 none (index_of-none (least_used_from cs now 0 none) e)).1
