-- ===== src/Blackboard/Channel.antt =====
-- The event channel: its bound, the backpressure on posting, and what a full channel holds up.
use polarisagi_harness.Prelude.{
  ℕ, ◌*◌, ◌≤◌, ◌<◌, ◌≡◌, ◌≢◌, refl, ◌∙◌, ap, ◌⊎◌, inl, inr, Bool, true, false, Option, none, some,
  List, [], ◌∷◌, arith, String, lookup, insert, lookup-insert-eq, Option-cases, List-cases,
  Bool-cases, length, length-append, All,
}
use polarisagi_harness.Blackboard.Owner.{posted}
use polarisagi_harness.Blackboard.Exclusive.{try_send-tasks}
use polarisagi_harness.Blackboard.Tasks.{
  TaskEntry, BlackboardEvent, Blackboard, Reply, returned, refused, backpressure_active, send,
  try_send, post_task, post_batch, post_entry, post_entries, check_backpressure, new_blackboard,
  stamped, posted_event,
}
use polarisagi_harness.Blackboard.Handlers.{
  Action, refuse, write, write_send, act, handle, handle_on,
}
use polarisagi_harness.Blackboard.Requests.{
  Request, request, Op, post, post_all, ask, set_epoch, take_event, apply, run_ops, locked_out,
  receive, start_execution, claim_task, renew_lease, begin_compensation, end_compensation, precheck,
  complete_task, fail_task, suspend_for_hitl, resume_from_hitl,
}

-- The channel holds at most its capacity, and a handler waits to send only when it is full.
pub record Inv (b : Blackboard) : Type 0 where
  pub bounded : length b.events ≤ b.capacity
  pub full : (b.sender ≡ none) ⊎ (length b.events ≡ b.capacity)

check-Inv : (b : Blackboard) → Inv b → Inv (check_backpressure b)
unfolding check_backpressure
check-Inv b v = ground arith

try_send-Inv :
    (b : Blackboard) (e : BlackboardEvent)
    → b.sender ≡ none
    → Inv b
    → Inv (try_send b e) × ((try_send b e).sender ≡ none)
unfolding try_send
try_send-Inv b e q v = ground (arith, length-append b.events (e ∷ []))

send-Inv :
    (b : Blackboard) (e : BlackboardEvent) (r : Reply)
    → b.sender ≡ none
    → Inv b
    → Inv (send b e r).0
unfolding send
send-Inv b e r q v = ground (arith, length-append b.events (e ∷ []))

act-Inv : (b : Blackboard) (id : String) (a : Action) → b.sender ≡ none → Inv b → Inv (act b id a).0
unfolding act
act-Inv b id (refuse r) q v = v
act-Inv b id (write e) q v = record { bounded = v.bounded; full = v.full }
act-Inv b id (write_send e ev r) q v =
    send-Inv (record b { tasks = insert id e b.tasks }) ev r q
      (record { bounded = v.bounded; full = v.full })

handle-Inv :
    (b : Blackboard) (id : String) (missing : Reply) (f : TaskEntry → Action)
    → b.sender ≡ none
    → Inv b
    → Inv (handle b id missing f).0
unfolding handle handle_on
handle-Inv b id missing f q v = elim (Option-cases (lookup id b.tasks)) [
  | inl n ↦ rw (n, handle, handle_on) v
  | inr (e, p) ↦ rw (p, handle, handle_on) (act-Inv b id (f e) q v)
]

request-Inv :
    (b : Blackboard) (id agent : String) (now : ℕ) (r : Request)
    → b.sender ≡ none
    → Inv b
    → Inv (request b id agent now r).0
unfolding request
request-Inv b id agent now start_execution q v = handle-Inv b id _ _ q v
request-Inv b id agent now claim_task q v = handle-Inv b id _ _ q v
request-Inv b id agent now renew_lease q v = handle-Inv b id _ _ q v
request-Inv b id agent now begin_compensation q v = handle-Inv b id _ _ q v
request-Inv b id agent now end_compensation q v = handle-Inv b id _ _ q v
request-Inv b id agent now precheck q v = handle-Inv b id _ _ q v
request-Inv b id agent now (complete_task r) q v = handle-Inv b id _ _ q v
request-Inv b id agent now (fail_task r) q v = handle-Inv b id _ _ q v
request-Inv b id agent now (suspend_for_hitl t) q v = handle-Inv b id _ _ q v
request-Inv b id agent now (resume_from_hitl a) q v = handle-Inv b id _ _ q v

post_entry-Inv :
    (b : Blackboard) (e : TaskEntry) (now : ℕ)
    → b.sender ≡ none
    → Inv b
    → Inv (post_entry b e now) × ((post_entry b e now).sender ≡ none)
unfolding post_entry
post_entry-Inv b e now q v =
    try_send-Inv (record b { tasks = insert e.id (stamped e now) b.tasks }) (posted_event e now) q
      (record { bounded = v.bounded; full = v.full })

post_entries-Inv :
    (b : Blackboard) (es : List TaskEntry) (now : ℕ)
    → b.sender ≡ none
    → Inv b
    → Inv (post_entries b es now)
unfolding post_entries
post_entries-Inv b [] now q v = v
post_entries-Inv b (e ∷ es) now q v =
    let (w, p) = post_entry-Inv b e now q v in post_entries-Inv (post_entry b e now) es now p w

check-sender : (b : Blackboard) → (check_backpressure b).sender ≡ b.sender
unfolding check_backpressure
check-sender b = ground arith

posted-Inv : (c d : Blackboard) (r : Bool) → Inv c → Inv d → Inv (posted c d r).0
posted-Inv c d true v w = v
posted-Inv c d false v w = w

receive-Inv : (b : Blackboard) → Inv b → Inv (receive b)
unfolding receive
receive-Inv b v = elim (List-cases b.events) [
  | inl n ↦ ground (arith, n, v)
  | inr (e, es, q) ↦ elim (Option-cases b.sender) [
    | inl n ↦ rw (q, n) (record { bounded = ground (arith, v); full = inl n })
    | inr (x, p) ↦
        rw (q, p)
          (record { bounded = ground (arith, v, length-append es (x ∷ [])); full = inl refl })
  ]
]

-- Only a receive goes through while a sender waits.
unlocked :
    (s : Option BlackboardEvent) (o : Op) → o ≢ take_event → locked_out s o ≡ false → s ≡ none
unfolding locked_out
unlocked none o n q = refl
unlocked (some e) (post t) n q = cc
unlocked (some e) (post_all ts) n q = cc
unlocked (some e) (ask id agent r) n q = cc
unlocked (some e) (set_epoch k) n q = cc
unlocked (some e) take_event n q = absurd (n refl)

apply-Inv :
    (b : Blackboard) (now : ℕ) (o : Op)
    → locked_out b.sender o ≡ false
    → Inv b
    → Inv (apply b now o)
unfolding apply
apply-Inv b now (post e) q v =
    let c = check_backpressure b in
    unfold post_task in
    posted-Inv c (post_entry c e now) c.backpressure (check-Inv b v)
      (post_entry-Inv c e now (check-sender b ∙ unlocked b.sender (post e) (λ z. cc) q)
        (check-Inv b v)).0
apply-Inv b now (post_all es) q v =
    let c = check_backpressure b in
    unfold post_batch in
    posted-Inv c (post_entries c es now) c.backpressure (check-Inv b v) (
      post_entries-Inv c es now (check-sender b ∙ unlocked b.sender (post_all es) (λ z. cc) q)
        (check-Inv b v))
apply-Inv b now (ask id agent r) q v =
    request-Inv b id agent now r (unlocked b.sender (ask id agent r) (λ z. cc) q) v
apply-Inv b now (set_epoch n) q v = record { bounded = v.bounded; full = v.full }
apply-Inv b now take_event q v = receive-Inv b v

run_ops-Inv : (b : Blackboard) (os : List (ℕ × Op)) → Inv b → Inv (run_ops b os)
unfolding run_ops
run_ops-Inv b [] v = v
run_ops-Inv b ((now, o) ∷ os) v = elim (Bool-cases (locked_out b.sender o)) [
  | inl t ↦ rw t (run_ops-Inv b os v)
  | inr f ↦ rw f (run_ops-Inv (apply b now o) os (apply-Inv b now o f v))
]

-- Whatever is done to a new board, the channel holds at most its 1024 events, and a handler waits to
-- send only while the channel is full.
pub channel_bounded : (os : List (ℕ × Op)) → Inv (run_ops new_blackboard os)
unfolding new_blackboard
channel_bounded os =
    run_ops-Inv new_blackboard os (record { bounded = omega arith; full = inl refl })

-- While a handler waits to send, holding the mutex, no other handler does anything: until a
-- subscriber receives, the board stays as it is.
pub full_channel_blocks :
    (b : Blackboard) (os : List (ℕ × Op))
    → b.sender ≢ none
    → All (λ o. o.1 ≢ take_event) os
    → run_ops b os ≡ b
unfolding run_ops
full_channel_blocks b [] h a = refl
full_channel_blocks b ((now, o) ∷ os) h a = elim (Bool-cases (locked_out b.sender o)) [
  | inl t ↦ rw t (full_channel_blocks b os h a.1)
  | inr f ↦ absurd (h (unlocked b.sender o a.0 f))
]

-- A post is refused only under backpressure: above 80% of the channel, or from 50% on after an
-- earlier refusal; and a refused post stores no task and sends no event.
pub post_task-refused :
    (b : Blackboard) (e : TaskEntry) (now : ℕ)
    → (post_task b e now).1 ≡ refused backpressure_active
    → ((post_task b e now).0.tasks ≡ b.tasks)
      × ((post_task b e now).0.events ≡ b.events)
      × ((8 * b.capacity < 10 * length b.events)
          ⊎ ((b.backpressure ≡ true)
              × ((5 * b.capacity ≤ 10 * length b.events) ⊎ (b.capacity ≡ 0))))
unfolding post_task check_backpressure
post_task-refused b e now q = (ground arith, ground arith, ground arith)

posted-accepted :
    (c d : Blackboard) (r : Bool)
    → (posted c d r).1 ≡ returned
    → (r ≡ false) × ((posted c d r).0 ≡ d)
posted-accepted c d true q = absurd (ground (arith, q))
posted-accepted c d false q = (refl, refl)

accepts-below :
    (b : Blackboard)
    → (check_backpressure b).backpressure ≡ false
    → (10 * length b.events ≤ 8 * b.capacity) ⊎ (b.capacity ≡ 0)
unfolding check_backpressure
accepts-below b q = ground arith

-- A post that is not refused stores its task as pending, and the channel then was at most 80% full.
pub post_task-accepted :
    (b : Blackboard) (e : TaskEntry) (now : ℕ)
    → (post_task b e now).1 ≡ returned
    → (lookup e.id (post_task b e now).0.tasks ≡ some (stamped e now))
      × ((10 * length b.events ≤ 8 * b.capacity) ⊎ (b.capacity ≡ 0))
unfolding post_task post_entry
post_task-accepted b e now q =
    let c = check_backpressure b in
    let (r, p) = posted-accepted c (post_entry c e now) c.backpressure q in
    (
      ap (λ (x : Blackboard). lookup e.id x.tasks) p
          ∙ ap (lookup e.id) (
              try_send-tasks (record c { tasks = insert e.id (stamped e now) c.tasks })
                (posted_event e now))
          ∙ lookup-insert-eq e.id e.id (stamped e now) c.tasks refl,
      accepts-below b r,
    )
