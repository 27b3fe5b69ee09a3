-- ===== src/FallbackFsm/Laws.antt =====
-- The replan guard of the fallback machine.
use polarisagi_harness.Prelude.{
  ◌≤◌, ◌≡◌, ◌≢◌, ◌⊎◌, none, some, List, [], ◌∷◌, arith, Option-cases, inl, inr,
}
use polarisagi_harness.Protocol.{AgentState, AgentTrigger, replan, failed}
use polarisagi_harness.FallbackFsm.{FallbackFsm, transition, move, run, invalid_transition}

-- In S_REPLAN at most three replans were counted.
abbrev pub IsGuarded : FallbackFsm → Type 0
IsGuarded f = (f.state ≢ replan) ⊎ (f.replan_count ≤ 3)

transition-IsGuarded :
    (f : FallbackFsm) (e : AgentTrigger) → IsGuarded f → IsGuarded (transition f e).0
unfolding transition
transition-IsGuarded f e g = ground arith

-- Whatever table, callbacks and triggers a machine has, it stands in S_REPLAN only with at most
-- three replans counted: the fourth entry goes to S_FAILED.
pub run-IsGuarded : (f : FallbackFsm) (es : List AgentTrigger) → IsGuarded f → IsGuarded (run f es)
unfolding run
run-IsGuarded f [] g = g
run-IsGuarded f (e ∷ es) g = run-IsGuarded (transition f e).0 es (transition-IsGuarded f e g)

-- A trigger either is refused, for want of an entry in the table, and changes nothing, or moves the
-- machine, a failing callback included: to the entry's state, or to S_FAILED at the fourth replan.
pub transition_moves :
    (f : FallbackFsm) (e : AgentTrigger)
    → ((f.transitions f.state e ≡ none)
        × (transition f e ≡ (f, some (invalid_transition f.state e))))
      ⊎ ((to : AgentState) × (f.transitions f.state e ≡ some to)
          × (((transition f e).0.state ≡ to)
              ⊎ ((to ≡ replan) × (3 ≤ f.replan_count) × ((transition f e).0.state ≡ failed))))
unfolding transition
transition_moves f e = elim (Option-cases (f.transitions f.state e)) [
  | inl n ↦ inl (n, rw (n, move))
  | inr (to, q) ↦ inr (to, q, ground arith)
]
