-- ===== src/Blackboard/Status.antt =====
-- The life of one task: which status follows which.
use mathlib.Core.Path.{subst}
use polarisagi_harness.Prelude.{
  ℕ, ◌≡◌, refl, sym, ◌⊎◌, inl, inr, Bool, true, false, not, ◌||◌, List, arith, String, str_eq,
  str_eq_iff, Bool-cases, ltb,
}
use polarisagi_harness.Blackboard.Tasks.{
  TaskStatus, pending, claimed, executing, suspended, compensating, done, failed, has_status,
  TaskEntry,
}
use polarisagi_harness.Blackboard.Handlers.{
  Action, refuse, write, write_send, start_action, complete_action, fail_action, claim_action,
  renew_action, suspend_action, resume_action, begin_compensation_action, end_compensation_action,
  precheck_action,
}

-- The moves of a task that its agent makes, from the claim on.
pub data Move : TaskStatus → TaskStatus → Type 0 where
  stay : {s : TaskStatus} → Move s s
  claim : Move pending claimed
  start : Move claimed executing
  suspend : Move executing suspended
  approve : Move suspended executing
  reject : Move suspended failed
  compensate : Move executing compensating
  compensated : Move compensating failed
  complete : {s : TaskStatus} → Move s done
  fail : {s : TaskStatus} → Move s failed

-- What an action may do to an entry: nothing, or one move by the agent that owns it then.
abbrev pub IsOwnMove : String → TaskEntry → Action → Type 0
IsOwnMove agent e (refuse r) = Unit
IsOwnMove agent e (write e') =
    Move e.status e'.status × (e.claimed_by ≡ agent) × (e'.claimed_by ≡ agent)
IsOwnMove agent e (write_send e' ev r) =
    Move e.status e'.status
    × ((e.claimed_by ≡ agent) ⊎ ((e.claimed_by ≡ "") × (e.status ≡ pending)))
    × (e'.claimed_by ≡ agent)

owner :
    (e : TaskEntry) (agent : String)
    → not (str_eq e.claimed_by agent) ≡ false
    → e.claimed_by ≡ agent
owner e agent h = (str_eq_iff e.claimed_by agent).0 (ground arith)

status_is : (s t : TaskStatus) → not (has_status s t) ≡ false → s ≡ t
status_is s t h = ground arith

-- A move by the owner out of a status that the code has tested.
own-Move :
    (agent : String) (e : TaskEntry) {s t : TaskStatus}
    → e.claimed_by ≡ agent
    → e.status ≡ s
    → Move s t
    → Move e.status t × (e.claimed_by ≡ agent) × (e.claimed_by ≡ agent)
own-Move agent e {s} {t} o q m = (subst (λ x. Move x t) (sym q) m, o, o)

or_false : (a b : Bool) → (not a || not b) ≡ false → (not a ≡ false) × (not b ≡ false)
or_false a b h = (ground arith, ground arith)

pub start-own :
    (agent : String) (now : ℕ) (e : TaskEntry) → IsOwnMove agent e (start_action agent now e)
unfolding start_action
start-own agent now e = elim (Bool-cases (not (str_eq e.claimed_by agent))) [
  | inl t ↦ rw t tt
  | inr f ↦ elim (Bool-cases (not (has_status e.status claimed))) [
    | inl u ↦ rw (f, u) tt
    | inr g ↦ rw (f, g) (own-Move agent e (owner e agent f) (status_is e.status claimed g) start)
  ]
]

pub complete-own :
    (id agent : String) (r : List ℕ) (now : ℕ) (e : TaskEntry)
    → IsOwnMove agent e (complete_action id agent r now e)
unfolding complete_action
complete-own id agent r now e = elim (Bool-cases (not (str_eq e.claimed_by agent))) [
  | inl t ↦ rw t tt
  | inr f ↦ rw f (complete, inl (owner e agent f), owner e agent f)
]

pub fail-own :
    (id agent : String) (r : List ℕ) (now : ℕ) (e : TaskEntry)
    → IsOwnMove agent e (fail_action id agent r now e)
unfolding fail_action
fail-own id agent r now e = elim (Bool-cases (not (str_eq e.claimed_by agent))) [
  | inl t ↦ rw t tt
  | inr f ↦ rw f (fail, inl (owner e agent f), owner e agent f)
]

pub claim-own :
    (id agent : String) (now : ℕ) (e : TaskEntry) → IsOwnMove agent e (claim_action id agent now e)
unfolding claim_action
claim-own id agent now e = elim (Bool-cases (not (str_eq e.claimed_by ""))) [
  | inl t ↦ rw t tt
  | inr f ↦ elim (Bool-cases (not (has_status e.status pending))) [
    | inl u ↦ rw (f, u) tt
    | inr g ↦
        let q = status_is e.status pending g in
        rw (f, g) (subst (λ x. Move x claimed) (sym q) claim, inr (owner e "" f, q), refl)
  ]
]

pub renew-own :
    (agent : String) (now : ℕ) (e : TaskEntry) → IsOwnMove agent e (renew_action agent now e)
unfolding renew_action
renew-own agent now e = elim (Bool-cases (not (str_eq e.claimed_by agent))) [
  | inl t ↦ rw t tt
  | inr f ↦ rw f (stay, owner e agent f, owner e agent f)
]

-- A handler that tests owner and status together.
module _ (agent : String) (now : ℕ) (e : TaskEntry) where
  guard_cases :
      (s : TaskStatus)
      → ((not (str_eq e.claimed_by agent) || not (has_status e.status s)) ≡ true)
        ⊎ (((not (str_eq e.claimed_by agent) || not (has_status e.status s)) ≡ false)
            × (e.claimed_by ≡ agent)
            × (e.status ≡ s))
  guard_cases s =
      elim (Bool-cases (not (str_eq e.claimed_by agent) || not (has_status e.status s))) [
        | inl t ↦ inl t
        | inr f ↦
            let (o, q) = or_false (str_eq e.claimed_by agent) (has_status e.status s) f in
            inr (f, owner e agent o, status_is e.status s q)
      ]

  pub suspend-own : (timeout : ℕ) → IsOwnMove agent e (suspend_action agent timeout now e)
  unfolding suspend_action
  suspend-own timeout = elim (guard_cases executing) [
    | inl t ↦ rw t tt
    | inr (f, o, q) ↦ rw f (own-Move agent e o q suspend)
  ]

  pub resume-own : (approved : Bool) → IsOwnMove agent e (resume_action agent approved now e)
  unfolding resume_action
  resume-own true = elim (guard_cases suspended) [
    | inl t ↦ rw t tt
    | inr (f, o, q) ↦ rw f (own-Move agent e o q approve)
  ]
  resume-own false = elim (guard_cases suspended) [
    | inl t ↦ rw t tt
    | inr (f, o, q) ↦ rw f (own-Move agent e o q reject)
  ]

  pub begin-own : IsOwnMove agent e (begin_compensation_action agent now e)
  unfolding begin_compensation_action
  begin-own = elim (guard_cases executing) [
    | inl t ↦ rw t tt
    | inr (f, o, q) ↦ rw f (own-Move agent e o q compensate)
  ]

  pub end-own : IsOwnMove agent e (end_compensation_action agent now e)
  unfolding end_compensation_action
  end-own = elim (guard_cases compensating) [
    | inl t ↦ rw t tt
    | inr (f, o, q) ↦ rw f (own-Move agent e o q compensated)
  ]

  pub precheck-own : IsOwnMove agent e (precheck_action agent now e)
  unfolding precheck_action
  precheck-own = elim (Bool-cases (not (str_eq e.claimed_by agent))) [
    | inl t ↦ rw t tt
    | inr f ↦ elim (Bool-cases (ltb e.expires_at now)) [
      | inl u ↦ rw (f, u) tt
      | inr g ↦ elim (Bool-cases (not (has_status e.status executing))) [
        | inl v ↦ rw (f, g, v) tt
        | inr h ↦ rw (f, g, h) tt
      ]
    ]
  ]
