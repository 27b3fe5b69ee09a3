-- ===== src/Executor/Retry.antt =====
-- executeNode of pkg/cognition/kernel/dag_executor.go: the retries of one node.
mod Laws
mod Tests
use polarisagi_harness.Prelude.{
  ℕ, zero, suc, ◌+◌, ◌-◌, ◌*◌, ◌%◌, ◌^◌, Bool, true, false, ◌&&◌, Option, none, some, List, [], ◌∷◌,
  String, ltb, if◌then◌else◌,
}
use polarisagi_harness.Dag.{ExecNode}
use polarisagi_harness.Executor.{
  Output, NodeError, context_done, surprise, call_failed, tool_failed, Outcome, success, failure,
}

-- What a call of the tool function brings: an error, a result that is not a success, or an output
-- with the test `si > 0.7` of the surprise index that follows it.
pub data Call : Type 0 where
  error : String → Call
  unsuccessful : String → Call
  result : Bool → Output → Call

-- The world around one node: the replay mode, whether the context ends during the wait before an
-- attempt, and what the call of an attempt brings.
pub record World : Type 0 where
  pub is_replaying : Bool
  pub done_before : ℕ → Bool
  pub call : ℕ → Call

-- `{"replayed":true}`
abbrev pub replayed : List ℕ
replayed =
    b'{' ∷ b'"' ∷ b'r' ∷ b'e' ∷ b'p' ∷ b'l' ∷ b'a' ∷ b'y' ∷ b'e' ∷ b'd' ∷ b'"' ∷ b':' ∷ b't' ∷ b'r'
    ∷ b'u' ∷ b'e' ∷ b'}' ∷ []

-- After the last attempt; Go returns `lastErr`, and a nil error with a nil output before any.
abbrev pub last_result : Option NodeError → Outcome
last_result none = success none
last_result (some e) = failure e

-- `lastErr` after a call that is tried again.
abbrev pub retry_error : Call → Option NodeError
retry_error (error x) = some (call_failed x)
retry_error (unsuccessful x) = some (tool_failed x)
retry_error (result surprised out) = none

-- The attempts from number k on, `left` of them, with the calls made so far.
pub attempts : World → ℕ → ℕ → Option NodeError → ℕ → Outcome × ℕ
attempts w zero k last calls = (last_result last, calls)
attempts w (suc left) k last calls =
    let again = attempts w left (suc k) (retry_error (w.call k)) (suc calls) in
    if ltb 0 k && w.done_before k
    then (failure context_done, calls)
    else if w.is_replaying
    then (success (some replayed), calls)
    else elim (w.call k) [
      | error x ↦ again
      | unsuccessful x ↦ again
      | result surprised out ↦ (if surprised then failure surprise else success out, suc calls)
    ]

-- The outcome of the node and the number of tool calls.
pub execute_node : World → ExecNode → Outcome × ℕ
execute_node w n = attempts w (suc n.max_retry) 0 none 0

-- `time.Duration(1<<uint(attempt)) * time.Second`, capped at 30s, in nanoseconds. A Duration is an
-- int64: the result is its bit pattern, and a pattern from 2^63 on stands for a negative one.
abbrev pub word : ℕ
word = 18_446_744_073_709_551_616

abbrev pub second : ℕ
second = 1_000_000_000

pub backoff : ℕ → ℕ
backoff k =
    let d = 2 ^ k % word * second % word in
    if ltb (30 * second) d && ltb d (2 ^ 63) then 30 * second else d
