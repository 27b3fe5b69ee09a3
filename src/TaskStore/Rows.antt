-- ===== src/TaskStore/Rows.antt =====
-- The table: its rows, and the statements that the handlers run.
use polarisagi_harness.Prelude.{
  ℕ, suc, Bool, false, ◌&&◌, ◌||◌, Option, none, some, List, [], ◌∷◌, String, ◌==◌, str_eq,
  if◌then◌else◌,
}
use polarisagi_harness.TaskStore.Stamp.{Stamp}

-- The texts of the column `status`.
pub data RowStatus : Type 0 where
  pending claimed running suspended compensating done failed : RowStatus

abbrev pub row_status_index : RowStatus → ℕ
row_status_index pending = 0
row_status_index claimed = 1
row_status_index running = 2
row_status_index suspended = 3
row_status_index compensating = 4
row_status_index done = 5
row_status_index failed = 6

pub record Row : Type 0 where
  pub task_id : String
  pub session_id : String
  pub priority : ℕ
  pub status : RowStatus
  pub claimed_by : Option String
  pub expires_at : Option Stamp
  pub version : ℕ
  pub toxicity : ℕ
  pub suspend_reason : Option String
  pub updated_at : Stamp

-- The tests of a WHERE clause; NULL equals nothing.
abbrev pub in_status : RowStatus → Row → Bool
in_status s r = row_status_index r.status == row_status_index s

abbrev pub names : Option String → String → Bool
names none a = false
names (some owner) a = str_eq owner a

abbrev pub has_id : String → Row → Bool
has_id id r = str_eq r.task_id id

abbrev pub owned : String → String → Row → Bool
owned id agent r = has_id id r && names r.claimed_by agent

-- Claimed or running.
abbrev pub is_active : Row → Bool
is_active r = in_status claimed r || in_status running r

-- UPDATE ... SET ... WHERE, and the number of rows that it changes.
unfoldable pub update_where : (Row → Bool) → (Row → Row) → List Row → List Row
update_where test f [] = []
update_where test f (r ∷ rs) = (if test r then f r else r) ∷ update_where test f rs

unfoldable pub rows_affected : (Row → Bool) → List Row → ℕ
rows_affected test [] = 0
rows_affected test (r ∷ rs) = let rest = rows_affected test rs in if test r then suc rest else rest

-- SELECT ... WHERE task_id=?
unfoldable pub find : String → List Row → Option Row
find id [] = none
find id (r ∷ rs) = let rest = find id rs in if has_id id r then some r else rest

-- INSERT OR IGNORE
unfoldable pub insert_or_ignore : Row → List Row → List Row
insert_or_ignore new [] = new ∷ []
insert_or_ignore new (r ∷ rs) =
    let kept = insert_or_ignore new rs in if has_id new.task_id r then r ∷ rs else r ∷ kept

unfoldable pub delete_where : (Row → Bool) → List Row → List Row
delete_where test [] = []
delete_where test (r ∷ rs) = let kept = delete_where test rs in if test r then kept else r ∷ kept
