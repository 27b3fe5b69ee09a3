-- ===== src/Blackboard/Owner.antt =====
-- One owner: what an agent's request can change, and that a claim is exclusive.
use polarisagi_harness.Prelude.{
  ℕ, ◌≡◌, refl, ◌⊎◌, inl, inr, Bool, Option, none, some, List, arith, String, lookup, insert,
  if◌then◌else◌,
}
use polarisagi_harness.Blackboard.Tasks.{
  TaskEntry, BlackboardEvent, Blackboard, Reply, returned, refused, backpressure_active, send,
  pending,
}
use polarisagi_harness.Blackboard.Handlers.{
  Action, refuse, write, write_send, act, handle, handle_on,
}
use polarisagi_harness.Blackboard.Requests.{
  Request, start_execution, claim_task, renew_lease, begin_compensation, end_compensation, precheck,
  complete_task, fail_task, suspend_for_hitl, resume_from_hitl, request,
}
use polarisagi_harness.Blackboard.Status.{
  Move, IsOwnMove, start-own, complete-own, fail-own, claim-own, renew-own, suspend-own, resume-own,
  begin-own, end-own, precheck-own,
}

-- What a request of an agent does to the tasks: nothing, or one move of the task that it names, by
-- the agent that owns it, or that claims it while it is pending and nobody's.
abbrev pub IsOwnChange :
    String → String → List (String × TaskEntry) → List (String × TaskEntry) → Type 0
IsOwnChange id agent ts ts' =
    (ts' ≡ ts)
    ⊎ ((e : TaskEntry) × (e' : TaskEntry) × (lookup id ts ≡ some e)
        × (ts' ≡ insert id e' ts)
        × Move e.status e'.status
        × ((e.claimed_by ≡ agent) ⊎ ((e.claimed_by ≡ "") × (e.status ≡ pending)))
        × (e'.claimed_by ≡ agent))

send-tasks : (b : Blackboard) (e : BlackboardEvent) (r : Reply) → (send b e r).0.tasks ≡ b.tasks
unfolding send
send-tasks b e r = ground arith

act-own :
    (b : Blackboard) (id agent : String) (e : TaskEntry) (a : Action)
    → lookup id b.tasks ≡ some e
    → IsOwnMove agent e a
    → IsOwnChange id agent b.tasks (act b id a).0.tasks
unfolding act
act-own b id agent e (refuse r) q m = inl refl
act-own b id agent e (write e') q m = inr (e, e', q, refl, m.0, inl m.1, m.2)
act-own b id agent e (write_send e' ev r) q m =
    inr (e, e', q, send-tasks (record b { tasks = insert id e' b.tasks }) ev r, m.0, m.1, m.2)

handle_on-own :
    (b : Blackboard) (id agent : String) (missing : Reply) (f : TaskEntry → Action)
    (o : Option TaskEntry)
    → lookup id b.tasks ≡ o
    → ((e : TaskEntry) → IsOwnMove agent e (f e))
    → IsOwnChange id agent b.tasks (handle_on b id missing f o).0.tasks
unfolding handle_on
handle_on-own b id agent missing f none q own = inl refl
handle_on-own b id agent missing f (some e) q own = act-own b id agent e (f e) q (own e)

handle-own :
    (b : Blackboard) (id agent : String) (missing : Reply) (f : TaskEntry → Action)
    → ((e : TaskEntry) → IsOwnMove agent e (f e))
    → IsOwnChange id agent b.tasks (handle b id missing f).0.tasks
unfolding handle
handle-own b id agent missing f own =
    handle_on-own b id agent missing f (lookup id b.tasks) refl own

-- An agent's request changes at most the task that it names, by one move of the task's life, and
-- only if the agent owns the task or claims it while it is pending and unclaimed.
pub request_own :
    (b : Blackboard) (id agent : String) (now : ℕ) (r : Request)
    → IsOwnChange id agent b.tasks (request b id agent now r).0.tasks
unfolding request
request_own b id agent now start_execution = handle-own b id agent _ _ (start-own agent now)
request_own b id agent now claim_task = handle-own b id agent _ _ (claim-own id agent now)
request_own b id agent now renew_lease = handle-own b id agent _ _ (renew-own agent now)
request_own b id agent now begin_compensation = handle-own b id agent _ _ (begin-own agent now)
request_own b id agent now end_compensation = handle-own b id agent _ _ (end-own agent now)
request_own b id agent now precheck = handle-own b id agent _ _ (precheck-own agent now)
request_own b id agent now (complete_task r) =
    handle-own b id agent _ _ (complete-own id agent r now)
request_own b id agent now (fail_task r) = handle-own b id agent _ _ (fail-own id agent r now)
request_own b id agent now (suspend_for_hitl t) =
    handle-own b id agent _ _ (λ e. suspend-own agent now e t)
request_own b id agent now (resume_from_hitl a) =
    handle-own b id agent _ _ (λ e. resume-own agent now e a)

-- What the two posting handlers return, after the backpressure test and after the posts.
abbrev pub posted : Blackboard → Blackboard → Bool → Blackboard × Reply
posted c d r = if r then (c, refused backpressure_active) else (d, returned)
