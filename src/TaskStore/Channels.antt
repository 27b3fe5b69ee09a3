-- ===== src/TaskStore/Channels.antt =====
-- The subscriptions: Subscribe, broadcast, and what a subscriber receives.
use polarisagi_harness.Prelude.{
  ℕ, zero, suc, List, [], ◌∷◌, ◌++◌, String, length, ltb, if◌then◌else◌,
}

pub data EventKind : Type 0 where
  task_posted task_claimed task_running task_completed task_failed task_lease_expired
        killswitch_stopall :
      EventKind

pub record Event : Type 0 where
  pub kind : EventKind
  pub task_id : String
  pub agent_id : String

-- A channel holds 64 events, oldest first.
abbrev pub channel_cap : ℕ
channel_cap = 64

-- `select { case ch <- ev: default: }`
unfoldable pub offer : Event → List Event → List Event
offer e ch = if ltb (length ch) channel_cap then ch ++ e ∷ [] else ch

unfoldable pub broadcast : Event → List (List Event) → List (List Event)
broadcast e [] = []
broadcast e (ch ∷ chs) = offer e ch ∷ broadcast e chs

unfoldable pub broadcast_all : List Event → List (List Event) → List (List Event)
broadcast_all [] chs = chs
broadcast_all (e ∷ es) chs = broadcast_all es (broadcast e chs)

unfoldable pub subscribe : List (List Event) → List (List Event)
subscribe chs = chs ++ [] ∷ []

-- The context of the i-th subscription is done.
unfoldable pub unsubscribe : List (List Event) → ℕ → List (List Event)
unsubscribe [] i = []
unsubscribe (ch ∷ chs) zero = chs
unsubscribe (ch ∷ chs) (suc i) = ch ∷ unsubscribe chs i

abbrev rest_of : List Event → List Event
rest_of [] = []
rest_of (e ∷ es) = es

-- The i-th subscriber takes the oldest event of its channel.
unfoldable pub receive : List (List Event) → ℕ → List (List Event)
receive [] i = []
receive (ch ∷ chs) zero = rest_of ch ∷ chs
receive (ch ∷ chs) (suc i) = ch ∷ receive chs i
