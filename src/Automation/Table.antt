-- ===== src/Automation/Table.antt =====
-- The tables of automations and runs, and the handlers that change them.
use polarisagi_harness.Prelude.{
  ℕ, Bool, true, false, ◌&&◌, ◌||◌, Option, none, some, List, [], ◌∷◌, ◌++◌, String, str_eq,
  if◌then◌else◌,
}
use polarisagi_harness.Text.{Bytes, same_bytes, trim}
use polarisagi_harness.Cron.{Calendar}
use polarisagi_harness.Automation.Schedule.{calc_next_run}

pub data RunStatus : Type 0 where
  never running succeeded erred : RunStatus

abbrev pub is_running : RunStatus → Bool
is_running running = true
is_running _ = false

pub record Row : Type 0 where
  pub id : String
  pub prompt : Bytes
  pub trigger_type : String
  pub cron_schedule : Bytes
  pub enabled : Bool
  pub next_run_at : Option ℕ
  pub last_run_status : RunStatus
  pub run_count : ℕ

pub data RunState : Type 0 where
  started : RunState
  finished : RunStatus → RunState

pub record Run : Type 0 where
  pub run_id : String
  pub automation_id : String
  pub state : RunState

pub record Server : Type 0 where
  pub automations : List Row
  pub runs : List Run

-- The status code of an HTTP answer.
abbrev pub Code : Type 0
Code = ℕ

abbrev pub is_cron : String → Bool
is_cron t = str_eq t "cron" || str_eq t "both"

pub record CreateRequest : Type 0 where
  pub prompt : Bytes
  pub trigger_type : String
  pub cron_schedule : Bytes
  pub enabled : Option Bool

abbrev or_else {ℓ} : {A : Type ℓ} → Option A → A → A
or_else none a = a
or_else (some x) a = x

abbrev or_cron : String → String
or_cron t = if str_eq t "" then "cron" else t

unfoldable pub next_of : Calendar → Bytes → ℕ → Option ℕ
next_of cal expr now = if same_bytes expr [] then none else calc_next_run cal expr now

abbrev new_row : Calendar → String → CreateRequest → ℕ → Row
new_row cal id q now = record {
  id = id;
  prompt = q.prompt;
  trigger_type = or_cron q.trigger_type;
  cron_schedule = q.cron_schedule;
  enabled = or_else q.enabled true;
  next_run_at = next_of cal q.cron_schedule now;
  last_run_status = never;
  run_count = 0;
}

-- `id` is the new random id; a fresh one, since the column is the primary key.
unfoldable pub handle_create : Calendar → Bool → Server → String → CreateRequest → ℕ → Server × Code
handle_create cal up s id q now =
    if same_bytes (trim q.prompt) []
    then (s, 400)
    else if is_cron (or_cron q.trigger_type) && same_bytes (trim q.cron_schedule) []
    then (s, 400)
    else if up
    then (record s { automations = s.automations ++ new_row cal id q now ∷ [] }, 201)
    else (s, 500)

pub record UpdateRequest : Type 0 where
  pub prompt : Option Bytes
  pub trigger_type : Option String
  pub cron_schedule : Option Bytes
  pub enabled : Option Bool

unfoldable pub find : String → List Row → Option Row
find id [] = none
find id (a ∷ rest) = let later = find id rest in if str_eq a.id id then some a else later

-- UPDATE automations SET ... WHERE id=?
unfoldable pub modify : String → (Row → Row) → List Row → List Row
modify id f [] = []
modify id f (a ∷ rest) = (if str_eq a.id id then f a else a) ∷ modify id f rest

unfoldable pub merged : Calendar → UpdateRequest → ℕ → Row → Row
merged cal q now a =
    let expr = or_else q.cron_schedule a.cron_schedule in
    record a {
      prompt = or_else q.prompt a.prompt;
      trigger_type = or_else q.trigger_type a.trigger_type;
      cron_schedule = expr;
      enabled = or_else q.enabled a.enabled;
      next_run_at = next_of cal expr now;
    }

-- The row is read, merged with the request, and written.
unfoldable pub write_merged :
    Calendar → Bool → Server → String → UpdateRequest → ℕ → Option Row → Server × Code
write_merged cal up s id q now none = (s, 404)
write_merged cal up s id q now (some a) =
    if up
    then (record s { automations = modify id (λ x. merged cal q now a) s.automations }, 200)
    else (s, 500)

unfoldable pub handle_update : Calendar → Bool → Server → String → UpdateRequest → ℕ → Server × Code
handle_update cal up s id q now = write_merged cal up s id q now (find id s.automations)

unfoldable pub without : String → List Row → List Row
without id [] = []
without id (a ∷ rest) = let kept = without id rest in if str_eq a.id id then kept else a ∷ kept

unfoldable pub runs_without : String → List Run → List Run
runs_without id [] = []
runs_without id (r ∷ rest) =
    let kept = runs_without id rest in if str_eq r.automation_id id then kept else r ∷ kept

-- An error of the first statement is ignored.
unfoldable pub handle_delete : Bool → Bool → Server → String → Server × Code
handle_delete up up' s id =
    let rs = if up then runs_without id s.runs else s.runs in
    if up'
    then (record { automations = without id s.automations; runs = rs }, 200)
    else (record s { runs = rs }, 500)
