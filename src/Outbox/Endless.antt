-- ===== src/Outbox/Endless.antt =====
-- Records that are retried for ever.
use mathlib.Core.Path.{subst}
use polarisagi_harness.Prelude.{
  ℕ, suc, ◌-◌, ◌≤◌, ◌≡◌, refl, sym, ap, ◌∙◌, inl, inr, Bool, true, false, ◌&&◌, Option, none, some,
  List, [], ◌∷◌, String, All-map, Bool-cases, arith, ltb, leb, ◌==◌, ==_iff, ◌||◌,
}
use polarisagi_harness.Outbox.Table.{
  Row, OutboxRecord, OutboxWorker, State, World, main_query, supp_query, record_of, fetch_batch,
  is_open, pending,
}
use polarisagi_harness.Outbox.Worker.{
  set_row, map_row, set_failed, update_row, has_columns, mark, advance, max_id, process, new_row,
  process_and_mark, process_all, process_batch, tick, Op, round, restart, enqueue, apply, run_ops,
}
use polarisagi_harness.Outbox.Keeps.{
  Keeps, IsFrom, select-IsFrom, batch-All, process_batch-rows, process_batch-last_id, process-rows,
  update_row-unknown, no_done, no_dead,
}

last_one-Keeps :
    (w : OutboxWorker) (p : Row → Bool) (rows : ℕ → Option Row) (id k : ℕ) (r : Row)
    (rec : OutboxRecord)
    → rows k ≡ some r
    → w.max_retries ≤ suc r.attempts
    → IsFrom p rows id rec
    → Keeps w k rec
unfolding record_of
last_one-Keeps w p rows id k r rec e h (r', q, i, t, l) = elim (Bool-cases (rec.id == k)) [
  | inr n ↦ inl (λ z. ground (arith, n, z))
  | inl y ↦
      let z : rec.id ≡ k = (==_iff rec.id k).0 y in
      let same : some r' ≡ some r = sym q ∙ ap rows z ∙ e in
      let n : rec.attempts ≡ r.attempts = ground (arith, i, same) in inr (omega (arith, n, h))
]

tick-Keeps :
    (w : OutboxWorker) (a : World) (s : State) (k : ℕ) (r : Row)
    → s.rows k ≡ some r
    → w.max_retries ≤ suc r.attempts
    → (tick w a s).rows k ≡ s.rows k
unfolding tick
tick-Keeps w a s k r e h = process_batch-rows w a s k (fetch_batch a s 50) (
    batch-All (Keeps w k) a s
      (All-map _ _ _ (λ rec. last_one-Keeps w (main_query a.now) s.rows (suc s.cursor) k r rec e h)
        (select-IsFrom (main_query a.now) s.rows (s.last_id - s.cursor) 50 (suc s.cursor)))
      (All-map _ _ _ (λ rec. last_one-Keeps w (supp_query a.now) s.rows 1 k r rec e h)
        (select-IsFrom (supp_query a.now) s.rows s.cursor 12 1)))

-- A record at its last attempt is never finished: whatever rounds, restarts and new records follow,
-- and whatever its handler answers, its row stays exactly as it is.
pub last_attempt_stays :
    (w : OutboxWorker) (os : List Op) (s : State) (k : ℕ) (r : Row)
    → s.rows k ≡ some r
    → w.max_retries ≤ suc r.attempts
    → k ≤ s.last_id
    → (run_ops w s os).rows k ≡ some r
unfolding run_ops apply tick set_row
last_attempt_stays w [] s k r e h l = e
last_attempt_stays w (round a ∷ os) s k r e h l =
    last_attempt_stays w os (tick w a s) k r (tick-Keeps w a s k r e h ∙ e) h
      (omega (arith, l, process_batch-last_id w a s (fetch_batch a s 50)))
last_attempt_stays w (restart read ∷ os) s k r e h l =
    last_attempt_stays w os (apply w s (restart read)) k r e h l
last_attempt_stays w (enqueue x o c p y ∷ os) s k r e h l =
    let n : (k == suc s.last_id) ≡ false = ground (arith, l) in
    last_attempt_stays w os (apply w s (enqueue x o c p y)) k r (rw n e) h (omega (arith, l))

abbrev pub AllOpen : (ℕ → Option Row) → Type 0
AllOpen rows = (k : ℕ) (r : Row) → rows k ≡ some r → is_open r.status ≡ true

map_row-open :
    (o : Option Row) (n t : ℕ) (r : Row)
    → map_row (set_failed n t) o ≡ some r
    → is_open r.status ≡ true
unfolding is_open
map_row-open none n t r e = ground (arith, e)
map_row-open (some x) n t r e = ground (arith, e)

set_row-AllOpen :
    (rows : ℕ → Option Row) (id : ℕ) (o : Option Row)
    → AllOpen rows
    → ((r : Row) → o ≡ some r → is_open r.status ≡ true)
    → AllOpen (set_row rows id o)
unfolding set_row
set_row-AllOpen rows id o v h k r e = elim (Bool-cases (k == id)) [
  | inl y ↦ h r (rw y at e)
  | inr n ↦ v k r (rw n at e)
]

unknown-AllOpen :
    (cs : List String) (up : Bool) (s : State) (id : ℕ) (f : Row → Row)
    → has_columns cs ≡ false
    → AllOpen s.rows
    → AllOpen (update_row cs up s id f).rows
unknown-AllOpen cs up s id f e v =
    subst (λ (x : State). AllOpen x.rows) (sym (update_row-unknown cs up s id f e)) v

failed-AllOpen :
    (cs : List String) (up : Bool) (s : State) (id n t : ℕ)
    → AllOpen s.rows
    → AllOpen (update_row cs up s id (set_failed n t)).rows
unfolding update_row
failed-AllOpen cs up s id n t v = elim (Bool-cases (up && has_columns cs)) [
  | inr e ↦ rw e v
  | inl y ↦ rw y (
      set_row-AllOpen s.rows id (map_row (set_failed n t) (s.rows id)) v
        (map_row-open (s.rows id) n t))
]

mark-AllOpen :
    (w : OutboxWorker) (a : World) (s : State) (rec : OutboxRecord) (ok : Bool)
    → AllOpen s.rows
    → AllOpen (mark w a s rec ok).rows
unfolding mark
mark-AllOpen w a s rec true v = unknown-AllOpen _ (a.up rec.id) s rec.id _ no_done v
mark-AllOpen w a s rec false v =
    elim (Bool-cases (leb w.max_retries (suc rec.attempts) || leb 3 rec.crash_recovery_count)) [
      | inl t ↦ rw t (unknown-AllOpen _ (a.up rec.id) s rec.id _ no_dead v)
      | inr f ↦ rw f (failed-AllOpen _ (a.up rec.id) s rec.id _ _ v)
    ]

process_all-AllOpen :
    (w : OutboxWorker) (a : World) (s : State) (rs : List OutboxRecord)
    → AllOpen s.rows
    → AllOpen (process_all w a s rs).rows
unfolding process_all process_and_mark
process_all-AllOpen w a s [] v = v
process_all-AllOpen w a s (r ∷ rs) v = process_all-AllOpen w a (process_and_mark w a s r) rs (
    mark-AllOpen w a (process w a s r).0 r (process w a s r).1
      (subst AllOpen (sym (process-rows w a s r)) v))

process_batch-AllOpen :
    (w : OutboxWorker) (a : World) (s : State) (o : Option (List OutboxRecord))
    → AllOpen s.rows
    → AllOpen (process_batch w a s o).rows
unfolding process_batch advance
process_batch-AllOpen w a s none v = v
process_batch-AllOpen w a s (some rs) v =
    let u = process_all-AllOpen w a s rs v in
    elim (Bool-cases (ltb (process_all w a s rs).cursor (max_id s.cursor rs))) [
      | inl t ↦ rw t u
      | inr f ↦ rw f u
    ]

new_row-open : (r q : Row) → q.status ≡ pending → some q ≡ some r → is_open r.status ≡ true
unfolding is_open
new_row-open r q p e = ground (arith, p, e)

-- In the table as the schema declares it, no record is ever done or dead: if all are pending or
-- failed, they are so after all rounds, restarts and new records, whatever the handlers answer.
pub nothing_ends :
    (w : OutboxWorker) (os : List Op) (s : State)
    → AllOpen s.rows
    → (k : ℕ) (r : Row) → (run_ops w s os).rows k ≡ some r
    → is_open r.status ≡ true
unfolding run_ops apply tick
nothing_ends w [] s v k r e = v k r e
nothing_ends w (round a ∷ os) s v k r e =
    nothing_ends w os (tick w a s) (process_batch-AllOpen w a s (fetch_batch a s 50) v) k r e
nothing_ends w (restart read ∷ os) s v k r e = nothing_ends w os (apply w s (restart read)) v k r e
nothing_ends w (enqueue x o c p y ∷ os) s v k r e =
    nothing_ends w os (apply w s (enqueue x o c p y))
      (set_row-AllOpen s.rows (suc s.last_id) (some (new_row x o c p y)) v
        (λ q. new_row-open q (new_row x o c p y) refl))
      k r e
