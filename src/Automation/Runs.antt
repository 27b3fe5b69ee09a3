-- ===== src/Automation/Runs.antt =====
-- Which automations the next tick starts, after a run.
use polarisagi_harness.Prelude.{
  ℕ, ◌≡◌, refl, ap, ◌∙◌, inl, inr, true, false, Option, none, some, List, [], ◌∷◌, String,
  Bool-cases, str_eq,
}
use polarisagi_harness.Text.{Bytes, same_bytes, fields, fields_from, trim, trim_left, trim_right}
use polarisagi_harness.Cron.{Calendar}
use polarisagi_harness.Automation.Schedule.{parts_of, five_of, scan_from, calc_next_run}
use polarisagi_harness.Automation.Table.{RunStatus, is_running, Row, Server, is_cron, find, modify}
use polarisagi_harness.Automation.Ticks.{
  is_due, is_due_at, begun, counted, execute_automation, finish_automation, trigger_found,
  handle_trigger,
}

abbrev modified : (Row → Row) → Option Row → Option Row
modified f none = none
modified f (some a) = some (f a)

find-modify :
    (id : String) (f : Row → Row) (rows : List Row)
    → ((a : Row) → (f a).id ≡ a.id)
    → find id (modify id f rows) ≡ modified f (find id rows)
unfolding find modify
find-modify id f [] keeps = refl
find-modify id f (a ∷ rest) keeps = elim (Bool-cases (str_eq a.id id)) [
  | inl t ↦ rw (t, keeps a) (rw t)
  | inr n ↦ rw (n, n) (find-modify id f rest keeps)
]

unreadable_next :
    (cal : Calendar) (expr : Bytes) (now : ℕ)
    → five_of (parts_of expr) ≡ none
    → calc_next_run cal expr now ≡ none
unfolding calc_next_run scan_from
unreadable_next cal expr now e = ap (λ o. scan_from o cal now) e

abbrev after_run : Calendar → Server → Row → String → ℕ → RunStatus → Server
after_run cal s a run_id now status =
    finish_automation true true (execute_automation cal true true s a run_id now) a.id run_id status

find-after_run :
    (cal : Calendar) (s : Server) (a x : Row) (run_id : String) (now : ℕ) (status : RunStatus)
    → find a.id s.automations ≡ some x
    → find a.id (after_run cal s a run_id now status).automations
      ≡ some (counted status (begun cal now a x))
unfolding execute_automation finish_automation
find-after_run cal s a x run_id now status e =
    find-modify a.id (counted status) (modify a.id (begun cal now a) s.automations) (λ y. refl)
    ∙ ap (modified (counted status)) (find-modify a.id (begun cal now a) s.automations (λ y. refl))
    ∙ ap (λ o. modified (counted status) (modified (begun cal now a) o)) e

-- The conditions of cronTick that no run changes.
abbrev pub IsScheduled : Row → Type 0
IsScheduled a =
    (a.enabled ≡ true) × (is_cron a.trigger_type ≡ true) × (same_bytes a.cron_schedule [] ≡ false)

no_next_is_due :
    (later : ℕ) (y : Row)
    → IsScheduled y
    → y.next_run_at ≡ none
    → is_running y.last_run_status ≡ false
    → is_due later y ≡ true
unfolding is_due is_due_at
no_next_is_due later y (e, t, s) n r = rw (e, t, s, n, r)

-- An enabled automation that cron triggers (alone or besides others), and whose schedule is not empty,
-- is no alias, and cannot be cut into five or six fields: when a run of it has ended, it is due again
-- at once, at every time.
pub unreadable_always_due :
    (cal : Calendar) (s : Server) (a : Row) (run_id : String) (now later : ℕ) (status : RunStatus)
    → find a.id s.automations ≡ some a
    → IsScheduled a
    → five_of (parts_of a.cron_schedule) ≡ none
    → is_running status ≡ false
    → (y : Row) × (find a.id
          (finish_automation true true
            (execute_automation cal true true s a run_id now)
            a.id
            run_id
            status).automations
        ≡ some y)
      × (is_due later y ≡ true)
unreadable_always_due cal s a run_id now later status f w u r = (
  counted status (begun cal now a a),
  find-after_run cal s a a run_id now status f,
  no_next_is_due later (counted status (begun cal now a a)) w
      (unreadable_next cal a.cron_schedule now u) r,
)

no_parts : five_of (parts_of []) ≡ none
unfolding parts_of five_of fields fields_from same_bytes trim trim_left trim_right
no_parts = refl

triggered :
    (cal : Calendar) (s : Server) (a : Row) (run_id : String) (now : ℕ)
    → find a.id s.automations ≡ some a
    → a.enabled ≡ true
    → (handle_trigger cal true true s a.id run_id now).0
      ≡ execute_automation cal true true s (record a { cron_schedule = [] }) run_id now
unfolding handle_trigger trigger_found
triggered cal s a run_id now f e =
    ap (λ o. (trigger_found cal true true s o run_id now).0) f ∙ (rw e)

-- For an enabled automation that cron triggers, with a schedule that is not empty: a run that was
-- triggered by hand loses the time of the next run. When it has ended, the automation still has its
-- schedule and is due at once, at every time.
pub trigger_loses_schedule :
    (cal : Calendar) (s : Server) (a : Row) (run_id : String) (now later : ℕ) (status : RunStatus)
    → find a.id s.automations ≡ some a
    → IsScheduled a
    → is_running status ≡ false
    → (y : Row) × (find a.id
          (finish_automation true true
            (handle_trigger cal true true s a.id run_id now).0
            a.id
            run_id
            status).automations
        ≡ some y)
      × (y.cron_schedule ≡ a.cron_schedule)
      × (is_due later y ≡ true)
trigger_loses_schedule cal s a run_id now later status f (e, t, w) r =
    let a' : Row = record a { cron_schedule = [] } in
    let y = counted status (begun cal now a' a) in
    (
      y,
      ap (λ z. find a.id (finish_automation true true z a.id run_id status).automations)
            (triggered cal s a run_id now f e)
          ∙ find-after_run cal s a' a run_id now status f,
      refl,
      no_next_is_due later y (e, t, w) (unreadable_next cal [] now no_parts) r,
    )
