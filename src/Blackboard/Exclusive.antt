-- ===== src/Blackboard/Exclusive.antt =====
-- A claim is exclusive.
use mathlib.Core.Option.{some-injective}
use polarisagi_harness.Prelude.{
  ℕ, ◌≡◌, ◌≢◌, refl, sym, ◌∙◌, ap, ◌⊎◌, inl, inr, Bool, true, false, some, List, [], ◌∷◌, arith,
  String, str_eq, str_eq_iff, lookup, insert, lookup-insert-ne, lookup-insert-eq, Bool-cases, All,
}
use polarisagi_harness.Blackboard.Tasks.{
  TaskEntry, BlackboardEvent, Blackboard, is_claimed, try_send, stamped, posted_event, post_task,
  post_batch, post_entry, post_entries, check_backpressure, pending,
}
use polarisagi_harness.Blackboard.Handlers.{refuse, act, handle, handle_on, claim_action}
use polarisagi_harness.Blackboard.Requests.{
  Request, claim_task, request, Op, post, post_all, ask, set_epoch, take_event, apply, run_ops,
  locked_out, receive,
}
use polarisagi_harness.Blackboard.Owner.{posted, IsOwnChange, request_own}

-- The task is held by the agent.
abbrev pub IsHeldBy : String → String → Blackboard → Type 0
IsHeldBy id agent b = (e : TaskEntry) × (lookup id b.tasks ≡ some e) × (e.claimed_by ≡ agent)

held_tasks :
    (id agent : String) (b b' : Blackboard)
    → b'.tasks ≡ b.tasks
    → IsHeldBy id agent b
    → IsHeldBy id agent b'
held_tasks id agent b b' q (e, l, o) = (e, ap (lookup id) q ∙ l, o)

-- Who has a held task after a move of another request on it.
still_held :
    (agent other : String) (d e e' : TaskEntry)
    → agent ≢ ""
    → e ≡ d
    → d.claimed_by ≡ agent
    → ((e.claimed_by ≡ other) ⊎ ((e.claimed_by ≡ "") × (e.status ≡ pending)))
    → e'.claimed_by ≡ other
    → e'.claimed_by ≡ agent
still_held agent other d e e' a s p (inl o) o' =
    o' ∙ sym o ∙ ap (λ (x : TaskEntry). x.claimed_by) s ∙ p
still_held agent other d e e' a s p (inr (o, q)) o' =
    absurd (a (sym p ∙ sym (ap (λ (x : TaskEntry). x.claimed_by) s) ∙ o))

own_change-held :
    (id agent x other : String) (b b' : Blackboard)
    → agent ≢ ""
    → IsOwnChange x other b.tasks b'.tasks
    → IsHeldBy id agent b
    → IsHeldBy id agent b'
own_change-held id agent x other b b' a (inl q) h = held_tasks id agent b b' q h
own_change-held id agent x other b b' a (inr (e, e', l, q, m, o, o')) (d, k, p) =
    elim (Bool-cases (str_eq x id)) [
      | inr f ↦ (
        d,
        ap (lookup id) q
            ∙ (lookup-insert-ne x id e' b.tasks (λ z. absurd (ground (arith, str_eq_iff x id)))
                ∙ k),
        p,
      )
      | inl t ↦
          let same =
            some-injective e d
              (sym l ∙ ap (λ (z : String). lookup z b.tasks) ((str_eq_iff x id).0 t) ∙ k) in
          (
            e',
            ap (lookup id) q ∙ lookup-insert-eq x id e' b.tasks ((str_eq_iff x id).0 t),
            still_held agent other d e e' a same p o o',
          )
    ]

-- The operation does not post the task anew.
abbrev pub IsNotPostOf : String → Op → Type 0
IsNotPostOf id (post e) = e.id ≢ id
IsNotPostOf id (post_all es) = All (λ e. e.id ≢ id) es
IsNotPostOf id (ask x agent r) = Unit
IsNotPostOf id (set_epoch n) = Unit
IsNotPostOf id take_event = Unit

check-tasks : (b : Blackboard) → (check_backpressure b).tasks ≡ b.tasks
unfolding check_backpressure
check-tasks b = ground arith

pub try_send-tasks : (b : Blackboard) (e : BlackboardEvent) → (try_send b e).tasks ≡ b.tasks
unfolding try_send
try_send-tasks b e = ground arith

post_entry-lookup :
    (b : Blackboard) (e : TaskEntry) (now : ℕ) (id : String)
    → e.id ≢ id
    → lookup id (post_entry b e now).tasks ≡ lookup id b.tasks
unfolding post_entry
post_entry-lookup b e now id h =
    ap (lookup id) (
      try_send-tasks (record b { tasks = insert e.id (stamped e now) b.tasks })
        (posted_event e now))
    ∙ lookup-insert-ne e.id id (stamped e now) b.tasks h

post_entries-lookup :
    (b : Blackboard) (es : List TaskEntry) (now : ℕ) (id : String)
    → All (λ e. e.id ≢ id) es
    → lookup id (post_entries b es now).tasks ≡ lookup id b.tasks
unfolding post_entries
post_entries-lookup b [] now id a = refl
post_entries-lookup b (e ∷ es) now id a =
    post_entries-lookup (post_entry b e now) es now id a.1 ∙ post_entry-lookup b e now id a.0

receive-tasks : (b : Blackboard) → (receive b).tasks ≡ b.tasks
unfolding receive
receive-tasks b = ground arith

-- Posting other tasks leaves the entry, in the state that the backpressure test has left.
posted-lookup :
    (b c d : Blackboard) (id : String) (r : Bool)
    → c.tasks ≡ b.tasks
    → lookup id d.tasks ≡ lookup id c.tasks
    → lookup id (posted c d r).0.tasks ≡ lookup id b.tasks
posted-lookup b c d id true p q = ap (lookup id) p
posted-lookup b c d id false p q = q ∙ ap (lookup id) p

IsHeldBy-lookup :
    (id agent : String) (b b' : Blackboard)
    → lookup id b'.tasks ≡ lookup id b.tasks
    → IsHeldBy id agent b
    → IsHeldBy id agent b'
IsHeldBy-lookup id agent b b' q (e, l, o) = (e, q ∙ l, o)

apply-held :
    (b : Blackboard) (now : ℕ) (o : Op) (id agent : String)
    → agent ≢ ""
    → IsNotPostOf id o
    → IsHeldBy id agent b
    → IsHeldBy id agent (apply b now o)
unfolding apply post_task post_batch
apply-held b now (post e) id agent a n h =
    let c = check_backpressure b in
    IsHeldBy-lookup id agent b (apply b now (post e))
      (posted-lookup b c (post_entry c e now) id c.backpressure (check-tasks b)
        (post_entry-lookup c e now id n))
      h
apply-held b now (post_all es) id agent a n h =
    let c = check_backpressure b in
    IsHeldBy-lookup id agent b (apply b now (post_all es))
      (posted-lookup b c (post_entries c es now) id c.backpressure (check-tasks b)
        (post_entries-lookup c es now id n))
      h
apply-held b now (ask x other r) id agent a n h =
    own_change-held id agent x other b (request b x other now r).0 a (request_own b x other now r) h
apply-held b now (set_epoch k) id agent a n h = h
apply-held b now take_event id agent a n h = held_tasks id agent b (receive b) (receive-tasks b) h

run_ops-held :
    (b : Blackboard) (os : List (ℕ × Op)) (id agent : String)
    → agent ≢ ""
    → All (λ o. IsNotPostOf id o.1) os
    → IsHeldBy id agent b
    → IsHeldBy id agent (run_ops b os)
unfolding run_ops
run_ops-held b [] id agent a n h = h
run_ops-held b ((now, o) ∷ os) id agent a n h = elim (Bool-cases (locked_out b.sender o)) [
  | inl t ↦ rw t (run_ops-held b os id agent a n.1 h)
  | inr f ↦
      rw f (run_ops-held (apply b now o) os id agent a n.1 (apply-held b now o id agent a n.0 h))
]

claim-refuses :
    (id other : String) (now : ℕ) (e : TaskEntry)
    → e.claimed_by ≢ ""
    → claim_action id other now e ≡ refuse (is_claimed false)
unfolding claim_action
claim-refuses id other now e h = ground (arith, str_eq_iff e.claimed_by "")

-- A claim of a task that is held by someone is refused and changes nothing.
held-claim :
    (b : Blackboard) (id agent other : String) (now : ℕ)
    → agent ≢ ""
    → IsHeldBy id agent b
    → request b id other now claim_task ≡ (b, is_claimed false)
unfolding request handle handle_on act
held-claim b id agent other now a (e, l, o) =
    rw (l, handle, handle_on, claim-refuses id other now e (λ z. a (sym o ∙ z))) refl

-- Whoever does not hold a task cannot change it.
held-stranger :
    (b : Blackboard) (id agent other : String) (ts : List (String × TaskEntry))
    → agent ≢ ""
    → other ≢ agent
    → IsHeldBy id agent b
    → IsOwnChange id other b.tasks ts
    → ts ≡ b.tasks
held-stranger b id agent other ts a n h (inl q) = q
held-stranger b id agent other ts a n (d, k, p) (inr (e, e', l, q, m, o, o')) =
    let s = ap (λ (x : TaskEntry). x.claimed_by) (some-injective e d (sym l ∙ k)) in
    elim o [ inl x ↦ absurd (n (sym x ∙ s ∙ p)) | inr (x, y) ↦ absurd (a (sym p ∙ sym s ∙ x)) ]

-- A claim is for good: once an agent holds a task of the in-memory board, then, whatever is done, at
-- whatever times and however handlers wait for the channel, so long as the task is not posted anew, the
-- agent still holds it, every further claim of it by anyone is refused and changes nothing, and no
-- request of another agent on it changes any task. That the lease has run out makes no difference.
pub claim_exclusive :
    (b : Blackboard) (os : List (ℕ × Op)) (id agent anyone other : String) (now : ℕ) (r : Request)
    → agent ≢ ""
    → other ≢ agent
    → IsHeldBy id agent b
    → All (λ o. IsNotPostOf id o.1) os
    → let c = run_ops b os in
      IsHeldBy id agent c
      × (request c id anyone now claim_task ≡ (c, is_claimed false))
      × ((request c id other now r).0.tasks ≡ c.tasks)
claim_exclusive b os id agent anyone other now r a n h p =
    let c = run_ops b os in
    let k = run_ops-held b os id agent a p h in
    (
      k,
      held-claim c id agent anyone now a k,
      held-stranger c id agent other (request c id other now r).0.tasks a n k
          (request_own c id other now r),
    )
