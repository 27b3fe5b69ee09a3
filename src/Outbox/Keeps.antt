-- ===== src/Outbox/Keeps.antt =====
-- What a round leaves as it was.
use mathlib.Core.Path.{subst}
use polarisagi_harness.Prelude.{
  ℕ, zero, suc, ◌-◌, ◌≤◌, ◌≡◌, ◌≢◌, ◌⊎◌, refl, ap, ◌∙◌, inl, inr, Bool, true, false, ◌&&◌, ◌||◌,
  Option, none, some, List, [], ◌∷◌, ◌++◌, String, All, All-map, Bool-cases, arith, ltb, leb, ◌==◌,
}
use polarisagi_harness.Outbox.Table.{
  Row, OutboxRecord, OutboxWorker, State, World, main_query, supp_query, record_of, passes, and_row,
  select, supplement, fetch_batch, outbox_columns,
}
use polarisagi_harness.Outbox.Worker.{
  set_row, has_column, has_columns, update_row, is_handled, process, mark, process_and_mark,
  process_all, max_id, advance, process_batch,
}

-- The table has no column processed_at.
pub no_done : has_columns ("status" ∷ "processed_at" ∷ []) ≡ false
unfolding has_columns has_column outbox_columns
no_done = refl

pub no_dead : has_columns ("status" ∷ "attempts" ∷ "processed_at" ∷ []) ≡ false
unfolding has_columns has_column outbox_columns
no_dead = refl

pub update_row-unknown :
    (cs : List String) (up : Bool) (s : State) (id : ℕ) (f : Row → Row)
    → has_columns cs ≡ false
    → update_row cs up s id f ≡ s
unfolding update_row
update_row-unknown cs true s id f e = rw e refl
update_row-unknown cs false s id f e = refl

update_row-other :
    (cs : List String) (up : Bool) (s : State) (id k : ℕ) (f : Row → Row)
    → id ≢ k
    → (update_row cs up s id f).rows k ≡ s.rows k
unfolding update_row set_row
update_row-other cs up s id k f n = elim (Bool-cases (up && has_columns cs)) [
  | inr e ↦ rw e refl
  | inl t ↦ elim (Bool-cases (k == id)) [ inl q ↦ ground (arith, q, n) | inr q ↦ rw (t, q) refl ]
]

-- A record of another row, or one at its last attempt, which ends with an update that is refused.
abbrev pub Keeps : OutboxWorker → ℕ → OutboxRecord → Type 0
Keeps w k r = (r.id ≢ k) ⊎ (w.max_retries ≤ suc r.attempts)

mark-Keeps :
    (w : OutboxWorker) (a : World) (s : State) (r : OutboxRecord) (ok : Bool) (k : ℕ)
    → Keeps w k r
    → (mark w a s r ok).rows k ≡ s.rows k
unfolding mark
mark-Keeps w a s r true k h = ap (λ (x : State). x.rows k) (update_row-unknown _ _ s r.id _ no_done)
mark-Keeps w a s r false k (inl n) =
    elim (Bool-cases (leb w.max_retries (suc r.attempts) || leb 3 r.crash_recovery_count)) [
      | inl t ↦ rw t (update_row-other _ (a.up r.id) s r.id k _ n)
      | inr f ↦ rw f (update_row-other _ (a.up r.id) s r.id k _ n)
    ]
mark-Keeps w a s r false k (inr h) =
    let t : (leb w.max_retries (suc r.attempts)) ≡ true = ground (arith, h) in
    rw t (ap (λ (x : State). x.rows k) (update_row-unknown _ (a.up r.id) s r.id _ no_dead))

pub process-rows :
    (w : OutboxWorker) (a : World) (s : State) (r : OutboxRecord)
    → (process w a s r).0.rows ≡ s.rows
unfolding process
process-rows w a s r = elim (Bool-cases (is_handled w a r)) [
  | inl t ↦ rw t refl
  | inr f ↦ rw f refl
]

pub process_all-Keeps :
    (w : OutboxWorker) (a : World) (s : State) (rs : List OutboxRecord) (k : ℕ)
    → All (Keeps w k) rs
    → (process_all w a s rs).rows k ≡ s.rows k
unfolding process_all process_and_mark
process_all-Keeps w a s [] k h = refl
process_all-Keeps w a s (r ∷ rs) k (h, hs) =
    process_all-Keeps w a (process_and_mark w a s r) rs k hs
    ∙ mark-Keeps w a (process w a s r).0 r (process w a s r).1 k h
    ∙ ap (λ f. f k) (process-rows w a s r)

-- What is selected is a row of the table that passes, with an id from the given one on.
abbrev pub IsFrom : (Row → Bool) → (ℕ → Option Row) → ℕ → OutboxRecord → Type 0
IsFrom p rows id rec =
    (r : Row) × (rows rec.id ≡ some r) × (rec ≡ record_of rec.id r) × (p r ≡ true) × (id ≤ rec.id)

sooner :
    (p : Row → Bool) (rows : ℕ → Option Row) (id : ℕ) (rec : OutboxRecord)
    → IsFrom p rows (suc id) rec
    → IsFrom p rows id rec
sooner p rows id rec (r, e, q, t, h) = (r, e, q, t, omega (arith, h))

and_row-IsFrom :
    (p : Row → Bool) (rows : ℕ → Option Row) (id : ℕ) (o : Option Row) (rs : List OutboxRecord)
    → rows id ≡ o
    → passes p o ≡ true
    → All (IsFrom p rows id) rs
    → All (IsFrom p rows id) (and_row id o rs)
unfolding passes and_row record_of
and_row-IsFrom p rows id none rs e t h = h
and_row-IsFrom p rows id (some r) rs e t h = ((r, e, refl, t, omega arith), h)

pub select-IsFrom :
    (p : Row → Bool) (rows : ℕ → Option Row) (room limit id : ℕ)
    → All (IsFrom p rows id) (select p rows room limit id)
unfolding select
select-IsFrom p rows zero limit id = tt
select-IsFrom p rows (suc room) zero id = tt
select-IsFrom p rows (suc room) (suc limit) id =
    let down = λ (rec : OutboxRecord). sooner p rows id rec in
    let skip = All-map _ _ _ down (select-IsFrom p rows room (suc limit) (suc id)) in
    let take = All-map _ _ _ down (select-IsFrom p rows room limit (suc id)) in
    elim (Bool-cases (passes p (rows id))) [
      | inr f ↦ rw f skip
      | inl t ↦ rw t (and_row-IsFrom p rows id (rows id) _ refl t take)
    ]

pub All-append :
    (Q : OutboxRecord → Type 0) (xs ys : List OutboxRecord) → All Q xs → All Q ys → All Q (xs ++ ys)
All-append Q [] ys a b = b
All-append Q (x ∷ xs) ys (q, a) b = (q, All-append Q xs ys a b)

supplement-All :
    (Q : OutboxRecord → Type 0) (a : World) (s : State)
    → All Q (select (supp_query a.now) s.rows s.cursor 12 1)
    → All Q (supplement a s 50)
unfolding supplement
supplement-All Q a s h = elim (Bool-cases (ltb 0 s.cursor && ltb 4 50 && a.read_more)) [
  | inl t ↦ rw t h
  | inr f ↦ rw f tt
]

-- What holds of all records of both queries holds of the whole batch.
pub batch-All :
    (Q : OutboxRecord → Type 0) (a : World) (s : State)
    → All Q (select (main_query a.now) s.rows (s.last_id - s.cursor) 50 (suc s.cursor))
    → All Q (select (supp_query a.now) s.rows s.cursor 12 1)
    → (rs : List OutboxRecord) → fetch_batch a s 50 ≡ some rs
    → All Q rs
unfolding fetch_batch
batch-All Q a s h k rs e = elim (Bool-cases a.read) [
  | inr f ↦ ground (arith, e, f)
  | inl t ↦
      let both = All-append Q _ _ h (supplement-All Q a s k) in
      let q : (select (main_query a.now) s.rows (s.last_id - s.cursor) 50 (suc s.cursor)
            ++ supplement a s 50)
          ≡ rs =
        ground (arith, e, t) in
      subst (All Q) q both
]

-- The rest of the state under the work on a batch.
pub record Same (s s' : State) : Type 0 where
  pub last_id : s'.last_id ≡ s.last_id
  pub cursor : s'.cursor ≡ s.cursor
  pub saved : s'.saved_cursor ≡ s.saved_cursor

same : (s : State) → Same s s
same s = record { last_id = refl; cursor = refl; saved = refl }

update_row-Same :
    (cs : List String) (up : Bool) (s : State) (id : ℕ) (f : Row → Row)
    → Same s (update_row cs up s id f)
unfolding update_row
update_row-Same cs up s id f = elim (Bool-cases (up && has_columns cs)) [
  | inl t ↦ rw t (record { last_id = refl; cursor = refl; saved = refl })
  | inr e ↦ rw e (same s)
]

mark-Same :
    (w : OutboxWorker) (a : World) (s : State) (r : OutboxRecord) (ok : Bool)
    → Same s (mark w a s r ok)
unfolding mark
mark-Same w a s r true = update_row-Same _ _ s r.id _
mark-Same w a s r false =
    elim (Bool-cases (leb w.max_retries (suc r.attempts) || leb 3 r.crash_recovery_count)) [
      | inl t ↦ rw t (update_row-Same _ _ s r.id _)
      | inr f ↦ rw f (update_row-Same _ _ s r.id _)
    ]

process-Same :
    (w : OutboxWorker) (a : World) (s : State) (r : OutboxRecord) → Same s (process w a s r).0
unfolding process
process-Same w a s r = elim (Bool-cases (is_handled w a r)) [
  | inl t ↦ rw t (record { last_id = refl; cursor = refl; saved = refl })
  | inr f ↦ rw f (same s)
]

trans_Same : (s t u : State) → Same s t → Same t u → Same s u
trans_Same s t u a b = record {
  last_id = b.last_id ∙ a.last_id;
  cursor = b.cursor ∙ a.cursor;
  saved = b.saved ∙ a.saved;
}

pub process_all-Same :
    (w : OutboxWorker) (a : World) (s : State) (rs : List OutboxRecord)
    → Same s (process_all w a s rs)
unfolding process_all process_and_mark
process_all-Same w a s [] = same s
process_all-Same w a s (r ∷ rs) =
    trans_Same s (process_and_mark w a s r) _
      (trans_Same s (process w a s r).0 _ (process-Same w a s r)
        (mark-Same w a (process w a s r).0 r (process w a s r).1))
      (process_all-Same w a (process_and_mark w a s r) rs)

-- A round keeps a row if every record of its batch does.
pub process_batch-rows :
    (w : OutboxWorker) (a : World) (s : State) (k : ℕ) (o : Option (List OutboxRecord))
    → ((rs : List OutboxRecord) → o ≡ some rs → All (Keeps w k) rs)
    → (process_batch w a s o).rows k ≡ s.rows k
unfolding process_batch advance
process_batch-rows w a s k none h = refl
process_batch-rows w a s k (some rs) h =
    let e = process_all-Keeps w a s rs k (h rs refl) in
    elim (Bool-cases (ltb (process_all w a s rs).cursor (max_id s.cursor rs))) [
      | inl t ↦ rw t e
      | inr f ↦ rw f e
    ]

pub process_batch-last_id :
    (w : OutboxWorker) (a : World) (s : State) (o : Option (List OutboxRecord))
    → (process_batch w a s o).last_id ≡ s.last_id
unfolding process_batch advance
process_batch-last_id w a s none = refl
process_batch-last_id w a s (some rs) =
    let e = (process_all-Same w a s rs).last_id in
    elim (Bool-cases (ltb (process_all w a s rs).cursor (max_id s.cursor rs))) [
      | inl t ↦ rw t e
      | inr f ↦ rw f e
    ]
