-- ===== src/Outbox/Forgotten.antt =====
-- Records that the cursor has passed.
use polarisagi_harness.Prelude.{
  ℕ, suc, ◌-◌, ◌≤◌, ◌≡◌, ◌≢◌, refl, sym, ap, ◌∙◌, inl, inr, Bool, true, false, ◌&&◌, Option, none,
  some, List, [], ◌∷◌, String, All, All-map, Bool-cases, arith, ltb, leb, ◌==◌, ◌||◌, if◌then◌else◌,
}
use polarisagi_harness.Outbox.Table.{
  pending, Row, OutboxRecord, OutboxWorker, State, World, is_failed, main_query, supp_query,
  fetch_batch,
}
use polarisagi_harness.Outbox.Worker.{
  set_row, update_row, has_columns, is_handled, process, mark, max_id, advance, process_and_mark,
  process_all, process_batch, tick, Op, round, restart, enqueue, apply, run_ops,
}
use polarisagi_harness.Outbox.Keeps.{
  IsFrom, select-IsFrom, batch-All, process_all-Same, process_all-Keeps,
}

-- How often a record was handed to its handler.
abbrev pub count : ℕ → List ℕ → ℕ
count k [] = 0
count k (i ∷ is) = if i == k then suc (count k is) else count k is

abbrev Other : ℕ → OutboxRecord → Type 0
Other k rec = rec.id ≢ k

update_row-calls :
    (cs : List String) (up : Bool) (s : State) (id : ℕ) (f : Row → Row)
    → (update_row cs up s id f).calls ≡ s.calls
unfolding update_row
update_row-calls cs up s id f = elim (Bool-cases (up && has_columns cs)) [
  | inl t ↦ rw t refl
  | inr e ↦ rw e refl
]

pub mark-calls :
    (w : OutboxWorker) (a : World) (s : State) (r : OutboxRecord) (ok : Bool)
    → (mark w a s r ok).calls ≡ s.calls
unfolding mark
mark-calls w a s r true = update_row-calls _ _ s r.id _
mark-calls w a s r false =
    elim (Bool-cases (leb w.max_retries (suc r.attempts) || leb 3 r.crash_recovery_count)) [
      | inl t ↦ rw t (update_row-calls _ _ s r.id _)
      | inr f ↦ rw f (update_row-calls _ _ s r.id _)
    ]

process-Other :
    (w : OutboxWorker) (a : World) (s : State) (r : OutboxRecord) (k : ℕ)
    → Other k r
    → count k (process w a s r).0.calls ≡ count k s.calls
unfolding process
process-Other w a s r k n = elim (Bool-cases (is_handled w a r)) [
  | inr f ↦ rw f refl
  | inl t ↦ let q : (r.id == k) ≡ false = ground (arith, n) in rw (t, q) refl
]

process_all-Other :
    (w : OutboxWorker) (a : World) (s : State) (rs : List OutboxRecord) (k : ℕ)
    → All (Other k) rs
    → count k (process_all w a s rs).calls ≡ count k s.calls
unfolding process_all process_and_mark
process_all-Other w a s [] k h = refl
process_all-Other w a s (r ∷ rs) k (h, hs) =
    process_all-Other w a (process_and_mark w a s r) rs k hs
    ∙ ap (count k) (mark-calls w a (process w a s r).0 r (process w a s r).1)
    ∙ process-Other w a s r k h

-- The row is pending, and both the cursor and its copy in the database have passed it.
pub record IsPassed (s : State) (k : ℕ) (r : Row) : Type 0 where
  pub row : s.rows k ≡ some r
  pub waits : r.status ≡ pending
  pub below : k ≤ s.saved_cursor
  pub order : s.saved_cursor ≤ s.cursor
  pub known : k ≤ s.last_id

main-Other :
    (s : State) (k : ℕ) (p : Row → Bool) (rec : OutboxRecord)
    → k ≤ s.cursor
    → IsFrom p s.rows (suc s.cursor) rec
    → Other k rec
main-Other s k p rec h (r, e, q, t, l) = λ z. omega (arith, h, l, z)

supp-Other :
    (s : State) (k now : ℕ) (r : Row) (rec : OutboxRecord)
    → s.rows k ≡ some r
    → r.status ≡ pending
    → IsFrom (supp_query now) s.rows 1 rec
    → Other k rec
unfolding supp_query is_failed
supp-Other s k now r rec e w (r', q, i, t, l) =
    λ z. let same : some r' ≡ some r = sym q ∙ ap s.rows z ∙ e in ground (arith, same, w, t)

batch-Other :
    (a : World) (s : State) (k : ℕ) (r : Row)
    → IsPassed s k r
    → (rs : List OutboxRecord) → fetch_batch a s 50 ≡ some rs
    → All (Other k) rs
batch-Other a s k r v =
    batch-All (Other k) a s
      (All-map _ _ _
        (λ rec. main-Other s k (main_query a.now) rec (omega (arith, v.below, v.order)))
        (select-IsFrom (main_query a.now) s.rows (s.last_id - s.cursor) 50 (suc s.cursor)))
      (All-map _ _ _ (λ rec. supp-Other s k a.now r rec v.row v.waits)
        (select-IsFrom (supp_query a.now) s.rows s.cursor 12 1))

advance-IsPassed :
    (a : World) (s : State) (c k : ℕ) (r : Row) → IsPassed s k r → IsPassed (advance a s c) k r
unfolding advance
advance-IsPassed a s c k r v = elim (Bool-cases (ltb s.cursor c)) [
  | inr f ↦ rw f v
  | inl t ↦ elim (Bool-cases a.save_up) [
    | inl u ↦
        rw (t, u)
          (record {
            row = v.row;
            waits = v.waits;
            below = ground (arith, t, v.below, v.order);
            order = omega arith;
            known = v.known;
          })
    | inr u ↦
        rw (t, u)
          (record {
            row = v.row;
            waits = v.waits;
            below = v.below;
            order = ground (arith, t, v.order);
            known = v.known;
          })
  ]
]

pub advance-calls : (a : World) (s : State) (c : ℕ) → (advance a s c).calls ≡ s.calls
unfolding advance
advance-calls a s c = elim (Bool-cases (ltb s.cursor c)) [ inl t ↦ rw t refl | inr f ↦ rw f refl ]

process_all-IsPassed :
    (w : OutboxWorker) (a : World) (s : State) (rs : List OutboxRecord) (k : ℕ) (r : Row)
    → All (Other k) rs
    → IsPassed s k r
    → IsPassed (process_all w a s rs) k r
process_all-IsPassed w a s rs k r h v =
    let same = process_all-Same w a s rs in
    record {
      row = process_all-Keeps w a s rs k (All-map _ _ rs (λ rec n. inl n) h) ∙ v.row;
      waits = v.waits;
      below = omega (arith, v.below, same.saved);
      order = omega (arith, v.order, same.saved, same.cursor);
      known = omega (arith, v.known, same.last_id);
    }

process_batch-IsPassed :
    (w : OutboxWorker) (a : World) (s : State) (k : ℕ) (r : Row) (o : Option (List OutboxRecord))
    → ((rs : List OutboxRecord) → o ≡ some rs → All (Other k) rs)
    → IsPassed s k r
    → IsPassed (process_batch w a s o) k r
      × (count k (process_batch w a s o).calls ≡ count k s.calls)
unfolding process_batch
process_batch-IsPassed w a s k r none h v = (v, refl)
process_batch-IsPassed w a s k r (some rs) h v =
    let m = process_all w a s rs in
    (
      advance-IsPassed a m (max_id s.cursor rs) k r
          (process_all-IsPassed w a s rs k r (h rs refl) v),
      ap (count k) (advance-calls a m (max_id s.cursor rs))
          ∙ process_all-Other w a s rs k (h rs refl),
    )

-- Every restart reads its cursor.
abbrev pub ReadsCursor : Op → Type 0
ReadsCursor (round a) = Unit
ReadsCursor (restart read) = read ≡ true
ReadsCursor (enqueue x o c p y) = Unit

apply-IsPassed :
    (w : OutboxWorker) (s : State) (o : Op) (k : ℕ) (r : Row)
    → ReadsCursor o
    → IsPassed s k r
    → IsPassed (apply w s o) k r × (count k (apply w s o).calls ≡ count k s.calls)
unfolding apply tick set_row
apply-IsPassed w s (round a) k r h v =
    process_batch-IsPassed w a s k r (fetch_batch a s 50) (batch-Other a s k r v) v
apply-IsPassed w s (restart read) k r h v = rw h (
  record { row = v.row; waits = v.waits; below = v.below; order = omega arith; known = v.known },
  refl,
)
apply-IsPassed w s (enqueue x o c p y) k r h v =
    let n : (k == suc s.last_id) ≡ false = ground (arith, v.known) in
    (
      record {
        row = rw n v.row;
        waits = v.waits;
        below = v.below;
        order = v.order;
        known = omega (arith, v.known);
      },
      refl,
    )

-- A record that is still pending when the cursor has passed it, as after a failure whose update was
-- refused: as long as restarts read the cursor, it stays as it is and is never handed to its handler
-- again.
pub forgotten :
    (w : OutboxWorker) (os : List Op) (s : State) (k : ℕ) (r : Row)
    → IsPassed s k r
    → All ReadsCursor os
    → ((run_ops w s os).rows k ≡ some r) × (count k (run_ops w s os).calls ≡ count k s.calls)
unfolding run_ops
forgotten w [] s k r v h = (v.row, refl)
forgotten w (o ∷ os) s k r v (h, hs) =
    let (u, c) = apply-IsPassed w s o k r h v in
    let (e, d) = forgotten w os (apply w s o) k r u hs in (e, d ∙ c)
