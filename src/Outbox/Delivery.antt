-- ===== src/Outbox/Delivery.antt =====
-- What a round hands to the handlers.
use mathlib.Core.Path.{subst}
use polarisagi_harness.Prelude.{
  ℕ, suc, ◌-◌, ◌≤◌, ◌<◌, ◌≡◌, refl, sym, ap, ◌∙◌, inl, inr, true, Option, none, some, List, [], ◌∷◌,
  ◌++◌, Bool-cases, arith, ltb, ◌==◌,
}
use polarisagi_harness.Outbox.Table.{
  Row, OutboxRecord, OutboxWorker, State, World, main_query, record_of, select, supplement,
  fetch_batch,
}
use polarisagi_harness.Outbox.Worker.{
  is_handled, process, max_id, advance, process_and_mark, process_all, process_batch, tick,
}
use polarisagi_harness.Outbox.Keeps.{process_all-Same}
use polarisagi_harness.Outbox.Forgotten.{count, mark-calls, advance-calls}
use polarisagi_harness.Outbox.Selection.{
  Has, Reaches, select-Has, supplement-below, not_Reaches, Reaches-append, Has-append,
  max_id-Reaches,
}

process-grows :
    (w : OutboxWorker) (a : World) (s : State) (r : OutboxRecord) (k : ℕ)
    → count k s.calls ≤ count k (process w a s r).0.calls
unfolding process
process-grows w a s r k = elim (Bool-cases (is_handled w a r)) [
  | inr f ↦ rw f (omega arith)
  | inl t ↦ elim (Bool-cases (r.id == k)) [
    | inl y ↦ rw (t, y) (omega arith)
    | inr n ↦ rw (t, n) (omega arith)
  ]
]

process-counts :
    (w : OutboxWorker) (a : World) (s : State) (r : OutboxRecord)
    → is_handled w a r ≡ true
    → suc (count r.id s.calls) ≡ count r.id (process w a s r).0.calls
unfolding process
process-counts w a s r t = let y : (r.id == r.id) ≡ true = ground arith in rw (t, y) refl

step-grows :
    (w : OutboxWorker) (a : World) (s : State) (r : OutboxRecord) (k : ℕ)
    → count k s.calls ≤ count k (process_and_mark w a s r).calls
unfolding process_and_mark
step-grows w a s r k = omega (
  arith,
  process-grows w a s r k,
  ap (count k) (mark-calls w a (process w a s r).0 r (process w a s r).1),
)

process_all-grows :
    (w : OutboxWorker) (a : World) (s : State) (rs : List OutboxRecord) (k : ℕ)
    → count k s.calls ≤ count k (process_all w a s rs).calls
unfolding process_all
process_all-grows w a s [] k = omega arith
process_all-grows w a s (r ∷ rs) k =
    omega (arith, step-grows w a s r k, process_all-grows w a (process_and_mark w a s r) rs k)

process_all-counts :
    (w : OutboxWorker) (a : World) (s : State) (rs : List OutboxRecord) (rec : OutboxRecord)
    → is_handled w a rec ≡ true
    → Has rec rs
    → suc (count rec.id s.calls) ≤ count rec.id (process_all w a s rs).calls
unfolding process_all
process_all-counts w a s [] rec t h = elim h [ ]
process_all-counts w a s (r ∷ rs) rec t (inr h) =
    omega (
      arith,
      step-grows w a s r rec.id,
      process_all-counts w a (process_and_mark w a s r) rs rec t h,
    )
process_all-counts w a s (r ∷ rs) rec t (inl e) =
    let first : suc (count rec.id s.calls) ≤ count rec.id (process_and_mark w a s r).calls =
      subst (λ x. suc (count x.id s.calls) ≤ count x.id (process_and_mark w a s r).calls) e
        (unfold process_and_mark in
          omega (
            arith,
            process-counts w a s r (ap (is_handled w a) e ∙ t),
            ap (count r.id) (mark-calls w a (process w a s r).0 r (process w a s r).1),
          )) in
    omega (arith, first, process_all-grows w a (process_and_mark w a s r) rs rec.id)

advance-cursor :
    (a : World) (s : State) (c k : ℕ) → s.cursor < k → k ≤ (advance a s c).cursor → k ≤ c
unfolding advance
advance-cursor a s c k l h = elim (Bool-cases (ltb s.cursor c)) [
  | inl t ↦ rw t at h
  | inr f ↦ let b : k ≤ s.cursor = rw f at h in omega (arith, l, b)
]

delivers :
    (w : OutboxWorker) (a : World) (s : State) (k : ℕ) (r : Row) (o : Option (List OutboxRecord))
    → fetch_batch a s 50 ≡ o
    → s.rows k ≡ some r
    → main_query a.now r ≡ true
    → is_handled w a (record_of k r) ≡ true
    → s.cursor < k
    → k ≤ (process_batch w a s o).cursor
    → suc (count k s.calls) ≤ count k (process_batch w a s o).calls
unfolding process_batch fetch_batch record_of
delivers w a s k r none q e p t l h = omega (arith, l, h)
delivers w a s k r (some rs) q e p t l h =
    let main = select (main_query a.now) s.rows (s.last_id - s.cursor) 50 (suc s.cursor) in
    let m = process_all w a s rs in
    let is : rs ≡ main ++ supplement a s 50 = elim (Bool-cases a.read) [
      | inl y ↦ ground (arith, q, y)
      | inr n ↦ ground (arith, q, n)
    ] in
    let far : k ≤ max_id s.cursor rs =
      advance-cursor a m (max_id s.cursor rs) k
        (omega (arith, l, (process_all-Same w a s rs).cursor)) h in
    let reach : Reaches k (main ++ supplement a s 50) =
      subst (Reaches k) is (max_id-Reaches k s.cursor rs l far) in
    let has : Has (record_of k r) main = elim (Reaches-append k main (supplement a s 50) reach) [
      | inl b ↦
          select-Has (main_query a.now) s.rows k r e p (s.last_id - s.cursor) 50 (suc s.cursor)
            (omega (arith, l)) b
      | inr b ↦ absurd (
          not_Reaches k (suc s.cursor) (supplement a s 50) (omega (arith, l)) (supplement-below a s)
            b)
    ] in
    let counted = process_all-counts w a s rs (record_of k r) t (
      subst (Has (record_of k r)) (sym is)
        (Has-append (record_of k r) main (supplement a s 50) has)) in
    omega (arith, counted, ap (count k) (advance-calls a m (max_id s.cursor rs)))

-- A round passes no record over: if the cursor moves past a record that was due, pending or failed,
-- and events are not replayed, its engine has a handler, and it has crashed fewer than three times,
-- then the round has handed it to the handler.
pub round_delivers :
    (w : OutboxWorker) (a : World) (s : State) (k : ℕ) (r : Row)
    → s.rows k ≡ some r
    → main_query a.now r ≡ true
    → is_handled w a (record_of k r) ≡ true
    → s.cursor < k
    → k ≤ (tick w a s).cursor
    → suc (count k s.calls) ≤ count k (tick w a s).calls
unfolding tick
round_delivers w a s k r e p t l h = delivers w a s k r (fetch_batch a s 50) refl e p t l h
