-- ===== src/Blackboard/Fence.antt =====
-- The check before a side effect.
use polarisagi_harness.Prelude.{
  ℕ, ◌≤◌, ◌≡◌, inl, inr, some, arith, String, str_eq_iff, lookup, Option-cases,
}
use polarisagi_harness.Blackboard.Tasks.{executing, TaskEntry, Blackboard, returned}
use polarisagi_harness.Blackboard.Handlers.{act, handle, handle_on, precheck_action}
use polarisagi_harness.Blackboard.Requests.{precheck, request}

precheck_action-returned :
    (b : Blackboard) (id agent : String) (now : ℕ) (e : TaskEntry)
    → (act b id (precheck_action agent now e)).1 ≡ returned
    → (e.claimed_by ≡ agent) × (now ≤ e.expires_at) × (e.status ≡ executing)
unfolding precheck_action act
precheck_action-returned b id agent now e q =
    (ground (arith, q, str_eq_iff e.claimed_by agent), ground (arith, q), ground (arith, q))

-- A side effect that passes its check is done by the agent that holds the task, while the task is
-- executing and its lease has not run out.
pub precheck_fences :
    (b : Blackboard) (id agent : String) (now : ℕ)
    → (request b id agent now precheck).1 ≡ returned
    → (e : TaskEntry) × (lookup id b.tasks ≡ some e)
      × (e.claimed_by ≡ agent)
      × (now ≤ e.expires_at)
      × (e.status ≡ executing)
unfolding request handle handle_on
precheck_fences b id agent now q = elim (Option-cases (lookup id b.tasks)) [
  | inl n ↦ absurd (ground (arith, (rw (handle, n, handle_on) at q)))
  | inr (e, l) ↦
      let (o, t, s) = precheck_action-returned b id agent now e (rw (handle, l, handle_on) at q) in
      (e, l, o, t, s)
]
