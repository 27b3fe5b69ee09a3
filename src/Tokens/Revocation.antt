-- ===== src/Tokens/Revocation.antt =====
-- The list of revoked tokens: what it keeps, and for how long.
use polarisagi_harness.Prelude.{
  ℕ, suc, ◌+◌, ◌≤◌, ◌<◌, ◌≡◌, ◌≢◌, refl, sym, ap, ◌∙◌, Bool, true, false, List, [], ◌∷◌, ◌++◌,
  String, length, length-append, leb, arith, All, Bool-cases, update, update_lem, str_eq_iff, ◌⊎◌,
  inl, inr,
}
use polarisagi_harness.Tokens.{
  TokenManager, new_token_manager, max_revoked_cap, drop_oldest, evict, enqueue, revoke, revoke_all,
}

-- The queue holds revoked ids only, each once.
Queued : (String → Bool) → List String → Type 0
Queued f [] = Unit
Queued f (x ∷ xs) = (f x ≡ true) × All (λ y. x ≢ y) xs × Queued f xs

drop-Queued :
    (f : String → Bool) (o : String) (xs : List String)
    → All (λ y. o ≢ y) xs
    → Queued f xs
    → Queued (update f o false) xs
unfolding Queued
drop-Queued f o [] a q = tt
drop-Queued f o (x ∷ xs) (n, a) (t, d, q) =
    (ground (arith, update_lem f o false x, str_eq_iff o x, t), d, drop-Queued f o xs a q)

All-snoc :
    (x id : String) (xs : List String)
    → All (λ y. x ≢ y) xs
    → x ≢ id
    → All (λ y. x ≢ y) (xs ++ id ∷ [])
All-snoc x id [] a n = (n, tt)
All-snoc x id (y ∷ ys) (m, a) n = (m, All-snoc x id ys a n)

differ_of : (f : String → Bool) (x y : String) → x ≡ y → f x ≡ true → f y ≡ false → ⊥
differ_of f x y e t n = ground (arith, ap f e, t, n)

enqueue-Queued :
    (f : String → Bool) (id : String) (xs : List String)
    → f id ≡ false
    → Queued f xs
    → Queued (update f id true) (xs ++ id ∷ [])
unfolding Queued
enqueue-Queued f id [] n q = (ground (arith, update_lem f id true id, str_eq_iff id id), tt, tt)
enqueue-Queued f id (x ∷ xs) n (t, d, q) =
    let differ : x ≢ id = λ e. differ_of f x id e t n in
    (
      ground (arith, update_lem f id true x, str_eq_iff id x, t),
      All-snoc x id xs d differ,
      enqueue-Queued f id xs n q,
    )

abbrev Inv : TokenManager → Type 0
Inv tm = Queued tm.revoked tm.revoke_q

drop_oldest-Inv :
    (tm : TokenManager) (q : List String) → Inv tm → Queued tm.revoked q → Inv (drop_oldest tm q)
unfolding drop_oldest Queued
drop_oldest-Inv tm [] w v = w
drop_oldest-Inv tm (o ∷ rest) w (t, d, v) = drop-Queued tm.revoked o rest d v

evict-Inv : (tm : TokenManager) → Inv tm → Inv (evict tm)
unfolding evict
evict-Inv tm v = elim (Bool-cases (leb max_revoked_cap (length tm.revoke_q))) [
  | inl t ↦ rw t (drop_oldest-Inv tm tm.revoke_q v v)
  | inr f ↦ rw f v
]

drop_oldest-revoked :
    (tm : TokenManager) (q : List String) (id : String)
    → tm.revoked id ≡ false
    → (drop_oldest tm q).revoked id ≡ false
unfolding drop_oldest
drop_oldest-revoked tm [] id e = e
drop_oldest-revoked tm (o ∷ rest) id e = ground (arith, update_lem tm.revoked o false id)

evict-revoked :
    (tm : TokenManager) (id : String) → tm.revoked id ≡ false → (evict tm).revoked id ≡ false
unfolding evict
evict-revoked tm id e = elim (Bool-cases (leb max_revoked_cap (length tm.revoke_q))) [
  | inl t ↦ rw t (drop_oldest-revoked tm tm.revoke_q id e)
  | inr f ↦ rw f e
]

enqueue-Inv :
    (tm : TokenManager) (id : String) → tm.revoked id ≡ false → Inv tm → Inv (enqueue tm id)
unfolding enqueue
enqueue-Inv tm id e v = enqueue-Queued tm.revoked id tm.revoke_q e v

revoke-Inv : (tm : TokenManager) (id : String) → Inv tm → Inv (revoke tm id)
unfolding revoke
revoke-Inv tm id v = elim (Bool-cases (tm.revoked id)) [
  | inl t ↦ rw t v
  | inr f ↦ rw f (enqueue-Inv (evict tm) id (evict-revoked tm id f) (evict-Inv tm v))
]

revoke_all-Inv : (tm : TokenManager) (ids : List String) → Inv tm → Inv (revoke_all tm ids)
unfolding revoke_all
revoke_all-Inv tm [] v = v
revoke_all-Inv tm (id ∷ ids) v = revoke_all-Inv (revoke tm id) ids (revoke-Inv tm id v)

-- The id is in the queue with at most n ids behind it.
Behind : String → ℕ → List String → Type 0
Behind id n [] = ⊥
Behind id n (x ∷ xs) = ((x ≡ id) × (length xs ≤ n)) ⊎ Behind id n xs

Behind-last : (id : String) (q : List String) → Behind id 0 (q ++ id ∷ [])
unfolding Behind
Behind-last id [] = inl (refl, omega arith)
Behind-last id (x ∷ xs) = inr (Behind-last id xs)

Behind-snoc :
    (id j : String) (n : ℕ) (q : List String) → Behind id n q → Behind id (suc n) (q ++ j ∷ [])
unfolding Behind
Behind-snoc id j n [] b = absurd b
Behind-snoc id j n (x ∷ xs) (inl (e, l)) = inl (e, omega (arith, l, length-append xs (j ∷ [])))
Behind-snoc id j n (x ∷ xs) (inr b) = inr (Behind-snoc id j n xs b)

Behind-more : (id : String) (n : ℕ) (q : List String) → Behind id n q → Behind id (suc n) q
unfolding Behind
Behind-more id n [] b = absurd b
Behind-more id n (x ∷ xs) (inl (e, l)) = inl (e, omega (arith, l))
Behind-more id n (x ∷ xs) (inr b) = inr (Behind-more id n xs b)

Behind-tail :
    (id x : String) (n : ℕ) (xs : List String)
    → Behind id n (x ∷ xs)
    → n < length xs
    → Behind id n xs
unfolding Behind
Behind-tail id x n xs (inl (e, l)) h = absurd (omega (arith, l, h))
Behind-tail id x n xs (inr b) h = b

Behind-revoked :
    (f : String → Bool) (id : String) (n : ℕ) (q : List String)
    → Queued f q
    → Behind id n q
    → f id ≡ true
unfolding Behind Queued
Behind-revoked f id n [] v b = absurd b
Behind-revoked f id n (x ∷ xs) (t, d, v) (inl (e, l)) = ap f (sym e) ∙ t
Behind-revoked f id n (x ∷ xs) (t, d, v) (inr b) = Behind-revoked f id n xs v b

drop_oldest-Behind :
    (tm : TokenManager) (q : List String) (id : String) (n : ℕ)
    → Behind id n q
    → suc n < length q
    → Behind id n (drop_oldest tm q).revoke_q
unfolding drop_oldest
drop_oldest-Behind tm [] id n b h = absurd (omega (arith, h))
drop_oldest-Behind tm (x ∷ xs) id n b h = Behind-tail id x n xs b (omega (arith, h))

revoke-Behind :
    (tm : TokenManager) (id j : String) (n : ℕ)
    → Behind id n tm.revoke_q
    → suc n < max_revoked_cap
    → Behind id (suc n) (revoke tm j).revoke_q
unfolding revoke evict enqueue
revoke-Behind tm id j n b h = elim (Bool-cases (tm.revoked j)) [
  | inl t ↦ rw t (Behind-more id n tm.revoke_q b)
  | inr f ↦ elim (Bool-cases (leb max_revoked_cap (length tm.revoke_q))) [
    | inl full ↦
        rw (f, full)
          (Behind-snoc id j n (drop_oldest tm tm.revoke_q).revoke_q
            (drop_oldest-Behind tm tm.revoke_q id n b (ground (arith, full, h))))
    | inr room ↦ rw (f, room) (Behind-snoc id j n tm.revoke_q b)
  ]
]

revoke_all-Behind :
    (tm : TokenManager) (id : String) (n : ℕ) (ids : List String)
    → Inv tm
    → Behind id n tm.revoke_q
    → n + length ids < max_revoked_cap
    → (revoke_all tm ids).revoked id ≡ true
unfolding revoke_all
revoke_all-Behind tm id n [] v b h = Behind-revoked tm.revoked id n tm.revoke_q v b
revoke_all-Behind tm id n (j ∷ ids) v b h =
    revoke_all-Behind (revoke tm j) id (suc n) ids (revoke-Inv tm j v)
      (revoke-Behind tm id j n b (omega (arith, h))) (omega (arith, h))

revoke-last :
    (tm : TokenManager) (id : String) → tm.revoked id ≡ false → Behind id 0 (revoke tm id).revoke_q
unfolding revoke enqueue
revoke-last tm id f = rw f (Behind-last id (evict tm).revoke_q)

-- Whatever was revoked before: an id that is newly revoked stays in the list through fewer than 1000
-- further calls of Revoke.
pub revoke_stays :
    (past : List String) (id : String) (ids : List String)
    → (revoke_all new_token_manager past).revoked id ≡ false
    → length ids < max_revoked_cap
    → (revoke_all (revoke (revoke_all new_token_manager past) id) ids).revoked id ≡ true
revoke_stays past id ids f h =
    let tm = revoke_all new_token_manager past in
    let v : Inv tm =
      revoke_all-Inv new_token_manager past (unfold new_token_manager Queued in tt) in
    revoke_all-Behind (revoke tm id) id 0 ids (revoke-Inv tm id v) (revoke-last tm id f)
      (omega (arith, h))
