-- ===== src/TaskStore/Board.antt =====
-- The board in use: calls of agents and ticks of reapers in any order. A reap in its grace period is
-- kept with what it has scanned.
use polarisagi_harness.Prelude.{ℕ, zero, suc, Bool, false, List, [], ◌∷◌, ◌++◌, String}
use polarisagi_harness.TaskStore.Channels.{subscribe, unsubscribe, receive}
use polarisagi_harness.TaskStore.Handlers.{
  Store, TaskEntry, register_cancel_func, post_task, post_batch, claim_task, start_execution,
  complete_task, fail_task, renew_lease, suspend_for_hitl, resume_from_hitl, begin_compensation,
  end_compensation, stop_all,
}
use polarisagi_harness.TaskStore.Reaping.{reap_scan, reap_write, phase2}

pub record Board : Type 0 where
  pub store : Store
  pub grace : List (List (String × String))

pub data Op : Type 0 where
  post : TaskEntry → Op
  batch : List TaskEntry → Op
  register : String → Op
  claim start complete fail renew begin_undo end_undo : String → String → Op
  suspend : String → String → ℕ → Op
  resume : String → String → Bool → Op
  stop : String → Op
  scan collect : Op
  write : (String → Bool) → ℕ → Op
  abandon : ℕ → Op
  listen : Op
  leave read : ℕ → Op

abbrev nth : List (List (String × String)) → ℕ → List (String × String)
nth [] i = []
nth (x ∷ xs) zero = x
nth (x ∷ xs) (suc i) = nth xs i

abbrev drop_nth : List (List (String × String)) → ℕ → List (List (String × String))
drop_nth [] i = []
drop_nth (x ∷ xs) zero = xs
drop_nth (x ∷ xs) (suc i) = x ∷ drop_nth xs i

-- What an operation does to the store.
unfoldable pub act : Bool → ℕ → Board → Op → Store
act up now b (post t) = (post_task up b.store t now).0
act up now b (batch ts) = (post_batch up b.store ts now).0
act up now b (register id) = register_cancel_func b.store id
act up now b (claim id agent) = (claim_task up b.store id agent now).0
act up now b (start id agent) = (start_execution up b.store id agent now).0
act up now b (complete id agent) = (complete_task up b.store id agent now).0
act up now b (fail id agent) = (fail_task up b.store id agent now).0
act up now b (renew id agent) = (renew_lease up b.store id agent now).0
act up now b (begin_undo id agent) = (begin_compensation up b.store id agent now).0
act up now b (end_undo id agent) = (end_compensation up b.store id agent now).0
act up now b (suspend id agent timeout) = (suspend_for_hitl up b.store id agent timeout now).0
act up now b (resume id agent ok) = (resume_from_hitl up b.store id agent ok now).0
act up now b (stop reason) = (stop_all up b.store reason now).0
act up now b scan = (reap_scan up b.store now).0
act up now b collect = phase2 up b.store now
act up now b (write ups i) = reap_write ups b.store (nth b.grace i) now
act up now b (abandon i) = b.store
act up now b listen = record b.store { subscribers = subscribe b.store.subscribers }
act up now b (leave i) = record b.store { subscribers = unsubscribe b.store.subscribers i }
act up now b (read i) = record b.store { subscribers = receive b.store.subscribers i }

-- What it does to the reaps in grace; a scan that finds nothing leaves none.
unfoldable pub wait_for :
    List (String × String) → List (List (String × String)) → List (List (String × String))
wait_for [] grace = grace
wait_for (x ∷ xs) grace = grace ++ (x ∷ xs) ∷ []

unfoldable pub next_grace : Bool → ℕ → Board → Op → List (List (String × String))
next_grace up now b scan = wait_for (reap_scan up b.store now).1 b.grace
next_grace up now b (write ups i) = drop_nth b.grace i
next_grace up now b (abandon i) = drop_nth b.grace i
next_grace up now b _ = b.grace

unfoldable pub apply : Board → Bool × ℕ × Op → Board
apply b (up, now, o) = record { store = act up now b o; grace = next_grace up now b o }

unfoldable pub run_ops : Board → List (Bool × ℕ × Op) → Board
run_ops b [] = b
run_ops b (o ∷ os) = run_ops (apply b o) os

unfoldable pub new_board : Board
new_board = record {
  store = record { rows = []; cancels = λ id. false; subscribers = [] };
  grace = [];
}
