-- ===== src/Outbox/Selection.antt =====
-- What the queries of a round return.
use polarisagi_harness.Prelude.{
  ℕ, zero, suc, ◌+◌, ◌≤◌, ◌<◌, ◌≡◌, ◌⊎◌, ap, inl, inr, Bool, true, ◌&&◌, Option, none, some, List,
  [], ◌∷◌, ◌++◌, All, Bool-cases, arith, ltb, leb, ◌==◌, ==_iff,
}
use polarisagi_harness.Outbox.Table.{
  Row, OutboxRecord, State, World, supp_query, record_of, passes, and_row, select, supplement,
}
use polarisagi_harness.Outbox.Worker.{max_id}

abbrev pub Has : OutboxRecord → List OutboxRecord → Type 0
Has rec [] = ⊥
Has rec (r ∷ rs) = (r ≡ rec) ⊎ Has rec rs

-- Some record has an id of at least k.
abbrev pub Reaches : ℕ → List OutboxRecord → Type 0
Reaches k [] = ⊥
Reaches k (r ∷ rs) = (k ≤ r.id) ⊎ Reaches k rs

and_row-Has :
    (k : ℕ) (r : Row) (o : Option Row) (rs : List OutboxRecord)
    → o ≡ some r
    → Has (record_of k r) (and_row k o rs)
unfolding and_row
and_row-Has k r none rs e = ground (arith, e)
and_row-Has k r (some x) rs e = inl (ap (record_of k) (ground (arith, e)))

and_row-rest :
    (id : ℕ) (o : Option Row) (rs : List OutboxRecord) (rec : OutboxRecord)
    → Has rec rs
    → Has rec (and_row id o rs)
unfolding and_row
and_row-rest id none rs rec h = h
and_row-rest id (some r) rs rec h = inr h

and_row-Reaches :
    (id k : ℕ) (o : Option Row) (rs : List OutboxRecord)
    → id < k
    → Reaches k (and_row id o rs)
    → Reaches k rs
unfolding and_row record_of
and_row-Reaches id k none rs l h = h
and_row-Reaches id k (some r) rs l (inl b) = ground (arith, l, b)
and_row-Reaches id k (some r) rs l (inr h) = h

-- A query skips no row that passes before the last one that it returns.
pub select-Has :
    (p : Row → Bool) (rows : ℕ → Option Row) (k : ℕ) (r : Row)
    → rows k ≡ some r
    → p r ≡ true
    → (room limit id : ℕ) → id ≤ k
    → Reaches k (select p rows room limit id)
    → Has (record_of k r) (select p rows room limit id)
unfolding select passes
select-Has p rows k r e t zero limit id l h = elim h [ ]
select-Has p rows k r e t (suc room) zero id l h = elim h [ ]
select-Has p rows k r e t (suc room) (suc limit) id l h = elim (Bool-cases (id == k)) [
  | inl y ↦
      let z : id ≡ k = (==_iff id k).0 y in
      let q : passes p (rows id) ≡ true = rw (z, e) t in rw (q, z) (and_row-Has k r (rows k) _ e)
  | inr n ↦
      let l' : suc id ≤ k = ground (arith, n, l) in
      elim (Bool-cases (passes p (rows id))) [
        | inr f ↦ rw f (select-Has p rows k r e t room (suc limit) (suc id) l' (rw f at h))
        | inl q ↦ rw q (
            and_row-rest id (rows id) _ _ (
              select-Has p rows k r e t room limit (suc id) l'
                (and_row-Reaches id k (rows id) _ l' (rw q at h))))
      ]
]

-- A query returns no id past its range.
and_row-below :
    (id n : ℕ) (o : Option Row) (rs : List OutboxRecord)
    → id < n
    → All (λ (x : OutboxRecord). x.id < n) rs
    → All (λ (x : OutboxRecord). x.id < n) (and_row id o rs)
unfolding and_row record_of
and_row-below id n none rs l h = h
and_row-below id n (some r) rs l h = (l, h)

select-below :
    (p : Row → Bool) (rows : ℕ → Option Row) (n room limit id : ℕ)
    → id + room ≤ n
    → All (λ (x : OutboxRecord). x.id < n) (select p rows room limit id)
unfolding select
select-below p rows n zero limit id l = tt
select-below p rows n (suc room) zero id l = tt
select-below p rows n (suc room) (suc limit) id l =
    let skip = select-below p rows n room (suc limit) (suc id) (omega (arith, l)) in
    let take = select-below p rows n room limit (suc id) (omega (arith, l)) in
    elim (Bool-cases (passes p (rows id))) [
      | inr f ↦ rw f skip
      | inl t ↦ rw t (and_row-below id n (rows id) _ (omega (arith, l)) take)
    ]

pub supplement-below :
    (a : World) (s : State) → All (λ (x : OutboxRecord). x.id < suc s.cursor) (supplement a s 50)
unfolding supplement
supplement-below a s = elim (Bool-cases (ltb 0 s.cursor && ltb 4 50 && a.read_more)) [
  | inl t ↦ rw t (select-below (supp_query a.now) s.rows (suc s.cursor) s.cursor 12 1 (omega arith))
  | inr f ↦ rw f tt
]

pub not_Reaches :
    (k n : ℕ) (rs : List OutboxRecord)
    → n ≤ k
    → All (λ (x : OutboxRecord). x.id < n) rs
    → Reaches k rs
    → ⊥
not_Reaches k n [] l h r = r
not_Reaches k n (x ∷ rs) l (h, hs) (inl b) = omega (arith, l, h, b)
not_Reaches k n (x ∷ rs) l (h, hs) (inr r) = not_Reaches k n rs l hs r

pub Reaches-append :
    (k : ℕ) (xs ys : List OutboxRecord) → Reaches k (xs ++ ys) → Reaches k xs ⊎ Reaches k ys
Reaches-append k [] ys h = inr h
Reaches-append k (x ∷ xs) ys (inl b) = inl (inl b)
Reaches-append k (x ∷ xs) ys (inr h) = elim (Reaches-append k xs ys h) [
  | inl a ↦ inl (inr a)
  | inr b ↦ inr b
]

pub Has-append : (rec : OutboxRecord) (xs ys : List OutboxRecord) → Has rec xs → Has rec (xs ++ ys)
Has-append rec [] ys h = elim h [ ]
Has-append rec (x ∷ xs) ys (inl e) = inl e
Has-append rec (x ∷ xs) ys (inr h) = inr (Has-append rec xs ys h)

pub max_id-Reaches : (k m : ℕ) (rs : List OutboxRecord) → m < k → k ≤ max_id m rs → Reaches k rs
unfolding max_id
max_id-Reaches k m [] l h = ground (arith, l, h)
max_id-Reaches k m (r ∷ rs) l h = elim (Bool-cases (ltb m r.id)) [
  | inr f ↦ inr (max_id-Reaches k m rs l (rw f at h))
  | inl t ↦ elim (Bool-cases (leb k r.id)) [
    | inl b ↦ inl (ground (arith, b))
    | inr c ↦ inr (max_id-Reaches k r.id rs (ground (arith, c)) (rw t at h))
  ]
]
