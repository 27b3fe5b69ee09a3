-- ===== src/Credentials/LeastUsed.antt =====
-- The least-used strategy.
use mathlib.Core.Path.{subst}
use polarisagi_harness.Prelude.{
  ℕ, suc, ◌+◌, ◌≤◌, ◌≡◌, refl, ap, ◌∙◌, ◌⊎◌, inl, inr, true, false, Option, none, some, List, [],
  ◌∷◌, arith, All,
}
use polarisagi_harness.Credentials.{
  PooledCredential, available, get_elem?, less_used, least_used_from, index_of, pick_least_used,
}

-- Everyone who is available has at least n requests.
abbrev pub AllUsed : List PooledCredential → ℕ → ℕ → Type 0
AllUsed cs now n = All (λ c. (available c now ≡ false) ⊎ (n ≤ c.request_count)) cs

less_used-least :
    (c : PooledCredential) (now k : ℕ) (chosen : Option (ℕ × ℕ)) (i n : ℕ)
    → less_used c now k chosen ≡ some (i, n)
    → ((available c now ≡ false) ⊎ (n ≤ c.request_count))
      × ((chosen ≡ none) ⊎ ((j : ℕ) × (m : ℕ) × (chosen ≡ some (j, m)) × (n ≤ m)))
unfolding less_used
less_used-least c now k none i n e = (ground (arith, e), inl refl)
less_used-least c now k (some (j, m)) i n e =
    (ground (arith, e), inr (j, m, refl, ground (arith, e)))

less_used-none :
    (c : PooledCredential) (now k : ℕ) (chosen : Option (ℕ × ℕ))
    → less_used c now k chosen ≡ none
    → (chosen ≡ none) × (available c now ≡ false)
unfolding less_used
less_used-none c now k none e = (refl, ground (arith, e))
less_used-none c now k (some (j, m)) e = absurd (ground (arith, e))

least_used_from-least :
    (cs : List PooledCredential) (now k : ℕ) (chosen : Option (ℕ × ℕ)) (i n : ℕ)
    → least_used_from cs now k chosen ≡ some (i, n)
    → AllUsed cs now n × ((chosen ≡ none) ⊎ ((j : ℕ) × (m : ℕ) × (chosen ≡ some (j, m)) × (n ≤ m)))
unfolding least_used_from
least_used_from-least [] now k chosen i n e = (tt, inr (i, n, e, omega arith))
least_used_from-least (c ∷ cs) now k chosen i n e =
    let (all, from) = least_used_from-least cs now (suc k) (less_used c now k chosen) i n e in
    elim from [
      | inl q ↦ let (p, f) = less_used-none c now k chosen q in ((inl f, all), inl p)
      | inr (j, m, q, h) ↦
          let (at, before) = less_used-least c now k chosen j m q in
          (
            (elim at [ inl f ↦ inl f | inr g ↦ inr (omega (arith, g, h)) ], all),
            elim before [
              | inl p ↦ inl p
              | inr (j', m', q', h') ↦ inr (j', m', q', omega (arith, h, h'))
            ],
          )
    ]

-- The pair that the loop holds is a member's index and count.
abbrev IsCountOf : ℕ → List PooledCredential → ℕ → ℕ → ℕ → Type 0
IsCountOf k cs now i n =
    (d : ℕ) × (c : PooledCredential) × (i ≡ k + d)
    × (get_elem? cs d ≡ some c)
    × (available c now ≡ true)
    × (n ≡ c.request_count)

less_used-count :
    (c : PooledCredential) (now k : ℕ) (chosen : Option (ℕ × ℕ)) (i n : ℕ)
    → less_used c now k chosen ≡ some (i, n)
    → (chosen ≡ some (i, n)) ⊎ ((i ≡ k) × (available c now ≡ true) × (n ≡ c.request_count))
unfolding less_used
less_used-count c now k none i n e = ground (arith, e)
less_used-count c now k (some (j, m)) i n e = ground (arith, e)

least_used_from-count :
    (cs : List PooledCredential) (now k : ℕ) (chosen : Option (ℕ × ℕ)) (i n : ℕ)
    → least_used_from cs now k chosen ≡ some (i, n)
    → (chosen ≡ some (i, n)) ⊎ IsCountOf k cs now i n
unfolding least_used_from get_elem?
least_used_from-count [] now k chosen i n e = inl e
least_used_from-count (c ∷ cs) now k chosen i n e =
    elim (least_used_from-count cs now (suc k) (less_used c now k chosen) i n e) [
      | inr (d, x, p, g, a, q) ↦ inr (suc d, x, omega (arith, p), g, a, q)
      | inl h ↦ elim (less_used-count c now k chosen i n h) [
        | inl z ↦ inl z
        | inr (p, a, q) ↦ inr (0, c, omega (arith, p), refl, a, q)
      ]
    ]

-- Under the least-used strategy the picked credential is available and no available one has fewer
-- requests.
pub pick_least_used-minimal :
    (cs : List PooledCredential) (now i : ℕ)
    → pick_least_used cs now ≡ some i
    → (c : PooledCredential) × (get_elem? cs i ≡ some c)
      × (available c now ≡ true)
      × AllUsed cs now c.request_count
unfolding pick_least_used
pick_least_used-minimal cs now i e = found (least_used_from cs now 0 none) refl e
  where
    found :
        (o : Option (ℕ × ℕ))
        → least_used_from cs now 0 none ≡ o
        → index_of o ≡ some i
        → (c : PooledCredential) × (get_elem? cs i ≡ some c)
          × (available c now ≡ true)
          × AllUsed cs now c.request_count
    found none q h = absurd (unfold index_of in ground (arith, h))
    found (some (j, n)) q h =
        let same : j ≡ i = unfold index_of in ground (arith, h) in
        elim (least_used_from-count cs now 0 none j n q) [
          | inl z ↦ absurd (ground (arith, z))
          | inr y ↦
              let (d, c, p, g, a, m) = y in
              (
                c,
                ap (get_elem? cs) (omega (arith, same, p)) ∙ g,
                a,
                subst (AllUsed cs now) m (least_used_from-least cs now 0 none j n q).0,
              )
        ]
