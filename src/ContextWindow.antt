-- ===== src/ContextWindow.antt =====
-- pkg/cognition/memory/working_mem.go: the context window, its eviction by score and Compress.
-- Scores are counted in quarters.
mod Eviction
mod Compression
mod Tests
use polarisagi_harness.Prelude.{
  ℕ, zero, suc, ◌+◌, ◌-◌, ◌*◌, ◌/◌, Bool, true, false, not, Option, none, some, List, [], ◌∷◌, ◌++◌,
  length, ltb, leb, if◌then◌else◌,
}

pub data Role : Type 0 where
  system tool user assistant : Role

pub record Message : Type 0 where
  pub role : Role
  pub content : List ℕ

pub record ContextWindow : Type 0 where
  pub messages : List Message
  pub capacity : ℕ
  pub max_tokens : ℕ

pub new_context_window : ℕ → ContextWindow
new_context_window capacity = record { messages = []; capacity = capacity; max_tokens = 128000 }

abbrev pub is_system : Role → Bool
is_system system = true
is_system _ = false

abbrev pub is_tool : Role → Bool
is_tool tool = true
is_tool _ = false

-- The score of the message at an index, in quarters.
pub score : Message → ℕ → ℕ → ℕ
score m i recent_threshold =
    let base = if is_tool m.role then 2 else 4 in if leb recent_threshold i then base * 2 else base

-- The lowest index and score so far after the message at index i. Before any, the code holds -1 and
-- 1e18, which every score is below.
pub better : Message → ℕ → ℕ → Option (ℕ × ℕ) → Option (ℕ × ℕ)
better m i threshold none = if is_system m.role then none else some (i, score m i threshold)
better m i threshold (some (j, t)) =
    let s = score m i threshold in
    if is_system m.role then some (j, t) else if ltb s t then some (i, s) else some (j, t)

-- The loop over the messages from index i on.
pub lowest : List Message → ℕ → ℕ → Option (ℕ × ℕ) → Option (ℕ × ℕ)
lowest [] i threshold best = best
lowest (m ∷ ms) i threshold best = lowest ms (suc i) threshold (better m i threshold best)

-- `append(messages[:i], messages[i+1:]...)`
pub remove_at : List Message → ℕ → List Message
remove_at [] i = []
remove_at (m ∷ ms) zero = ms
remove_at (m ∷ ms) (suc i) = m ∷ remove_at ms i

pub evicted : List Message → Option (ℕ × ℕ) → List Message × Bool
evicted ms none = (ms, false)
evicted ms (some (i, s)) = (remove_at ms i, true)

pub evict_by_score : List Message → List Message × Bool
evict_by_score ms = evicted ms (lowest ms 0 (length ms - 5) none)

pub append : ContextWindow → Message → ContextWindow
append cw m =
    let ms = cw.messages ++ m ∷ [] in
    record cw { messages = if ltb cw.capacity (length ms) then (evict_by_score ms).0 else ms }

-- Four bytes are a token, and each message has four more.
pub token_count : List Message → ℕ
token_count [] = 0
token_count (m ∷ ms) = (length m.content / 4 + 4) + token_count ms

-- The loop of Compress. Each round removes a message or is the last, so the number of messages is
-- fuel enough.
pub compress_loop : ℕ → ℕ → List Message → List Message
compress_loop zero target ms = ms
compress_loop (suc fuel) target ms =
    let (rest, removed) = evict_by_score ms in
    let next = compress_loop fuel target rest in
    if ltb target (token_count ms) then if removed then next else rest else ms

pub compress : ContextWindow → ℕ → ContextWindow
compress cw target = record cw {
  max_tokens = target;
  messages = compress_loop (length cw.messages) target cw.messages;
}
