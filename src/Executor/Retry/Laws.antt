-- ===== src/Executor/Retry/Laws.antt =====
-- How often a node is tried, and what its success means.
use polarisagi_harness.Prelude.{
  ap, ℕ, zero, suc, ◌+◌, ◌*◌, ◌≤◌, ◌<◌, ◌≡◌, refl, ◌⊎◌, inl, inr, Bool, true, false, ◌&&◌, Option,
  none, some, ltb, leb, all_below, all_below-at, arith,
}
use polarisagi_harness.Dag.{ExecNode}
use polarisagi_harness.Executor.{Output, NodeError, call_failed, tool_failed, Outcome, success}
use polarisagi_harness.Executor.Retry.{
  Call, error, unsuccessful, result, retry_error, World, replayed, attempts, execute_node, backoff,
  second,
}

attempts-calls :
    (w : World) (left k : ℕ) (last : Option NodeError) (calls : ℕ)
    → (attempts w left k last calls).1 ≤ calls + left
unfolding attempts
attempts-calls w zero k last calls = omega arith
attempts-calls w (suc left) k last calls =
    ground (arith, attempts-calls w left (suc k) (retry_error (w.call k)) (suc calls))

-- A node calls its tool at most MaxRetry + 1 times.
pub execute_node_calls : (w : World) (n : ExecNode) → (execute_node w n).1 ≤ n.max_retry + 1
unfolding execute_node
execute_node_calls w n = omega (arith, attempts-calls w (suc n.max_retry) 0 none 0)

-- In replay mode a node calls its tool never and succeeds at once with the replay marker.
pub execute_node_replays :
    (w : World) (n : ExecNode)
    → w.is_replaying ≡ true
    → execute_node w n ≡ (success (some replayed), 0)
unfolding execute_node attempts
execute_node_replays w n r = ground arith

Call-cases :
    (c : Call)
    → ((x : NodeError) × (retry_error c ≡ some x)) ⊎ ((b : Bool) × (o : Output) × (c ≡ result b o))
Call-cases (error x) = inl (call_failed x, refl)
Call-cases (unsuccessful x) = inl (tool_failed x, refl)
Call-cases (result b o) = inr (b, o, refl)

-- A call that can be tried again passes on to the next attempt.
attempts-retry :
    (w : World) (left k : ℕ) (last : Option NodeError) (calls : ℕ) (x : NodeError) (out : Output)
    → w.is_replaying ≡ false
    → retry_error (w.call k) ≡ some x
    → (attempts w (suc left) k last calls).0 ≡ success out
    → attempts w (suc left) k last calls ≡ attempts w left (suc k) (some x) (suc calls)
unfolding attempts
attempts-retry w left k last calls x out r q e = ground arith

attempts-result :
    (w : World) (left k : ℕ) (last : Option NodeError) (calls : ℕ) (b : Bool) (o out : Output)
    → w.is_replaying ≡ false
    → w.call k ≡ result b o
    → (attempts w (suc left) k last calls).0 ≡ success out
    → (w.call k ≡ result false out) × ((attempts w (suc left) k last calls).1 ≡ suc calls)
unfolding attempts
attempts-result w left k last calls b o out r q e = (ground arith, ground arith)

attempts-success :
    (w : World) (left k : ℕ) (last : Option NodeError) (calls : ℕ) (out : Output)
    → w.is_replaying ≡ false
    → (last ≡ none → 0 < left)
    → (attempts w left k last calls).0 ≡ success out
    → (j : ℕ) × (k ≤ j)
      × (j < k + left)
      × (w.call j ≡ result false out)
      × ((attempts w left k last calls).1 + k ≡ calls + suc j)
attempts-success w zero k none calls out r l e = absurd (omega (arith, l refl))
attempts-success w zero k (some x) calls out r l e = absurd (unfold attempts in ground arith)
attempts-success w (suc left) k last calls out r l e = elim (Call-cases (w.call k)) [
  | inl (x, q) ↦
      let eq = attempts-retry w left k last calls x out r q e in
      let (j, low, high, found, count) =
        attempts-success w left (suc k) (some x) (suc calls) out r (λ z. cc) (rw eq at e) in
      (j, omega arith, omega arith, found, omega (arith, ap (λ (t : Outcome × ℕ). t.1) eq))
  | inr (b, o, q) ↦
      let (p, n) = attempts-result w left k last calls b o out r q e in
      (k, omega arith, omega arith, p, omega (arith, n))
]

-- Outside replay mode a node succeeds only with the output of a call that was a success and did not
-- surprise; that call is its last, and at most MaxRetry + 1 were made.
pub execute_node-success :
    (w : World) (n : ExecNode) (out : Output)
    → w.is_replaying ≡ false
    → (execute_node w n).0 ≡ success out
    → (j : ℕ) × (j ≤ n.max_retry) × (w.call j ≡ result false out) × ((execute_node w n).1 ≡ suc j)
unfolding execute_node
execute_node-success w n out r e =
    let (j, low, high, found, count) =
      attempts-success w (suc n.max_retry) 0 none 0 out r (λ z. omega arith) e in
    (j, omega arith, found, omega arith)

abbrev positive_at : ℕ → Bool
positive_at k = ltb 0 (backoff k) && leb (backoff k) (30 * second)

-- Up to attempt 33 the wait before an attempt is positive and at most 30 seconds.
pub backoff_bounded : (k : ℕ) → k ≤ 33 → (0 < backoff k) × (backoff k ≤ 30 * second)
backoff_bounded k h = ground (arith, all_below-at positive_at 34 table k (omega arith))
  where
    table : all_below positive_at 34 ≡ true
    table = unfold backoff in refl
