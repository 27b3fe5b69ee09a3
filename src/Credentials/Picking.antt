-- ===== src/Credentials/Picking.antt =====
-- What each strategy picks.
use mathlib.Core.Path.{subst}
use polarisagi_harness.Prelude.{
  ℕ, zero, suc, ◌+◌, ◌%◌, ◌≡◌, refl, sym, ◌⊎◌, inl, inr, true, Option, none, some, List, [], ◌∷◌,
  length, arith, Bool-cases,
}
use polarisagi_harness.Credentials.{
  SelectStrategy, fill_first, round_robin, random, least_used, PooledCredential, available,
  get_elem?, is_available_at, pick_fill_first, pick_round_robin, available_from, index_at,
  pick_random, less_used, least_used_from, index_of, pick_least_used, picked,
}

-- The credential at the index is there and has cooled down.
abbrev pub IsReadyAt : List PooledCredential → ℕ → ℕ → Type 0
IsReadyAt cs i now = is_available_at (get_elem? cs i) now ≡ true

-- Index i counts from k, at which the list starts.
abbrev IsReadyFrom : ℕ → List PooledCredential → ℕ → ℕ → Type 0
IsReadyFrom k cs i now = (d : ℕ) × (i ≡ k + d) × IsReadyAt cs d now

later :
    (k i now : ℕ) (c : PooledCredential) (cs : List PooledCredential)
    → IsReadyFrom (suc k) cs i now
    → IsReadyFrom k (c ∷ cs) i now
unfolding get_elem?
later k i now c cs (d, e, r) = (suc d, omega (arith, e), r)

here :
    (k now : ℕ) (c : PooledCredential) (cs : List PooledCredential)
    → available c now ≡ true
    → IsReadyFrom k (c ∷ cs) k now
unfolding get_elem? is_available_at
here k now c cs t = (0, omega arith, t)

pick_fill_first-IsReadyFrom :
    (cs : List PooledCredential) (now k i : ℕ)
    → pick_fill_first cs now k ≡ some i
    → IsReadyFrom k cs i now
unfolding pick_fill_first
pick_fill_first-IsReadyFrom [] now k i e = absurd (ground (arith, e))
pick_fill_first-IsReadyFrom (c ∷ cs) now k i e = elim (Bool-cases (available c now)) [
  | inl t ↦
      let p : k ≡ i = ground (arith, e, t) in
      subst (λ x. IsReadyFrom k (c ∷ cs) x now) p (here k now c cs t)
  | inr f ↦ later k i now c cs (pick_fill_first-IsReadyFrom cs now (suc k) i (ground (arith, e, f)))
]

pick_round_robin-IsReadyAt :
    (cs : List PooledCredential) (now cursor left k i : ℕ)
    → pick_round_robin cs now cursor left k ≡ some i
    → IsReadyAt cs i now
unfolding pick_round_robin
pick_round_robin-IsReadyAt cs now cursor zero k i e = absurd (ground (arith, e))
pick_round_robin-IsReadyAt cs now cursor (suc left) k i e =
    elim (Bool-cases (is_available_at (get_elem? cs ((cursor + k) % length cs)) now)) [
      | inl t ↦ ground (arith, e, t)
      | inr f ↦ pick_round_robin-IsReadyAt cs now cursor left (suc k) i (ground (arith, e, f))
    ]

available_from-IsReadyFrom :
    (cs : List PooledCredential) (now k m i : ℕ)
    → index_at (available_from cs now k) m ≡ some i
    → IsReadyFrom k cs i now
unfolding available_from index_at
available_from-IsReadyFrom [] now k m i e = absurd (ground (arith, e))
available_from-IsReadyFrom (c ∷ cs) now k m i e = elim (Bool-cases (available c now)) [
  | inr f ↦ later k i now c cs (available_from-IsReadyFrom cs now (suc k) m i (rw f at e))
  | inl t ↦ first_or_later (λ x. available_from-IsReadyFrom cs now (suc k) x i) m (rw t at e) t
]
  where
    first_or_later :
        ((x : ℕ)
          → index_at (available_from cs now (suc k)) x ≡ some i
          → IsReadyFrom (suc k) cs i now)
        → (m : ℕ) → index_at (k ∷ available_from cs now (suc k)) m ≡ some i
        → available c now ≡ true
        → IsReadyFrom k (c ∷ cs) i now
    first_or_later deeper zero q t =
        let p : k ≡ i = ground (arith, q) in
        subst (λ x. IsReadyFrom k (c ∷ cs) x now) p (here k now c cs t)
    first_or_later deeper (suc m) q t = later k i now c cs (deeper m q)

less_used-found :
    (c : PooledCredential) (now k : ℕ) (chosen : Option (ℕ × ℕ)) (i n : ℕ)
    → less_used c now k chosen ≡ some (i, n)
    → (chosen ≡ some (i, n)) ⊎ ((i ≡ k) × (available c now ≡ true))
unfolding less_used
less_used-found c now k none i n e = ground (arith, e)
less_used-found c now k (some (j, m)) i n e = ground (arith, e)

least_used_from-IsReadyFrom :
    (cs : List PooledCredential) (now k : ℕ) (chosen : Option (ℕ × ℕ)) (i n : ℕ)
    → least_used_from cs now k chosen ≡ some (i, n)
    → (chosen ≡ some (i, n)) ⊎ IsReadyFrom k cs i now
unfolding least_used_from
least_used_from-IsReadyFrom [] now k chosen i n e = inl e
least_used_from-IsReadyFrom (c ∷ cs) now k chosen i n e =
    elim (least_used_from-IsReadyFrom cs now (suc k) (less_used c now k chosen) i n e) [
      | inr r ↦ inr (later k i now c cs r)
      | inl q ↦ elim (less_used-found c now k chosen i n q) [
        | inl h ↦ inl h
        | inr (p, t) ↦ inr (subst (λ x. IsReadyFrom k (c ∷ cs) x now) (sym p) (here k now c cs t))
      ]
    ]

at_zero : (cs : List PooledCredential) (i now : ℕ) → IsReadyFrom 0 cs i now → IsReadyAt cs i now
at_zero cs i now (d, e, r) = subst (λ x. IsReadyAt cs x now) (omega (arith, e)) r

pick_least_used-IsReadyAt :
    (cs : List PooledCredential) (now i : ℕ) (o : Option (ℕ × ℕ))
    → least_used_from cs now 0 none ≡ o
    → index_of o ≡ some i
    → IsReadyAt cs i now
unfolding index_of
pick_least_used-IsReadyAt cs now i none q e = absurd (ground (arith, e))
pick_least_used-IsReadyAt cs now i (some (j, n)) q e =
    let p : j ≡ i = ground (arith, e) in
    elim (least_used_from-IsReadyFrom cs now 0 none j n q) [
      | inl h ↦ absurd (ground (arith, h))
      | inr r ↦ subst (λ x. IsReadyAt cs x now) p (at_zero cs j now r)
    ]

-- Whatever the strategy, the picked credential is one of the pool and is not cooling down.
pub picked-IsReadyAt :
    (s : SelectStrategy) (cs : List PooledCredential) (cursor now draw i : ℕ)
    → picked s cs cursor now draw ≡ some i
    → IsReadyAt cs i now
unfolding picked pick_random pick_least_used
picked-IsReadyAt fill_first cs cursor now draw i e =
    at_zero cs i now (pick_fill_first-IsReadyFrom cs now 0 i e)
picked-IsReadyAt round_robin cs cursor now draw i e =
    pick_round_robin-IsReadyAt cs now cursor (length cs) 0 i e
picked-IsReadyAt random cs cursor now draw i e =
    at_zero cs i now
      (available_from-IsReadyFrom cs now 0 (draw % length (available_from cs now 0)) i e)
picked-IsReadyAt least_used cs cursor now draw i e =
    pick_least_used-IsReadyAt cs now i (least_used_from cs now 0 none) refl e
