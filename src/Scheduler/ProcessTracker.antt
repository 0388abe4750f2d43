-- ===== src/Scheduler/ProcessTracker.antt =====
-- The task row and its updates: crates/diesel_models/src/process_tracker.rs, with the statuses of
-- crates/diesel_models/src/enums.rs. `Time` is the `PrimitiveDateTime` of the time crate, and `Json`
-- the value type of serde_json: types of other packages, and so parameters.
pub mod Update
use mercado.Prelude.{String, Option, Bool, List, false, some, true, [], ◌∷◌, str_eq, ◌||◌}
use mercado.Prelude.Int.{ℤ, pos}
use mercado.Prelude.Results.{Result, ok, map_err, ◌>>=◌}
use mercado.Errors.{DatabaseError}

pub data ProcessTrackerStatus : Type 0 where
  processing new pending process_started finish : ProcessTrackerStatus

unfoldable pub status_eq : ProcessTrackerStatus → ProcessTrackerStatus → Bool
status_eq processing processing = true
status_eq new new = true
status_eq pending pending = true
status_eq process_started process_started = true
status_eq finish finish = true
status_eq _ _ = false

pub record ProcessTracker (Time Json : Type 0) : Type 0 where
  pub id : String
  pub name : Option String
  pub tag : List String
  pub runner : Option String
  pub retry_count : ℤ
  pub schedule_time : Option Time
  pub rule : String
  pub tracking_data : Json
  pub business_status : String
  pub status : ProcessTrackerStatus
  pub event : List String
  pub created_at : Time
  pub updated_at : Time

-- `valid_statuses.iter().any(|&x| x == self.business_status)`
unfoldable pub is_valid_business_status :
    {Time Json : Type 0} → ProcessTracker Time Json → List String → Bool
is_valid_business_status p [] = false
is_valid_business_status p (x ∷ valid_statuses) =
    str_eq x p.business_status || is_valid_business_status p valid_statuses

pub data ProcessTrackerRunner : Type 0 where
  payments_sync_workflow refund_workflow_router delete_tokenize_data_workflow : ProcessTrackerRunner
  api_key_expiry_workflow outgoing_webhook_retry_workflow : ProcessTrackerRunner

-- `strum::Display` with `serialize_all = "SCREAMING_SNAKE_CASE"`.
unfoldable pub runner_to_string : ProcessTrackerRunner → String
runner_to_string payments_sync_workflow = "PAYMENTS_SYNC_WORKFLOW"
runner_to_string refund_workflow_router = "REFUND_WORKFLOW_ROUTER"
runner_to_string delete_tokenize_data_workflow = "DELETE_TOKENIZE_DATA_WORKFLOW"
runner_to_string api_key_expiry_workflow = "API_KEY_EXPIRY_WORKFLOW"
runner_to_string outgoing_webhook_retry_workflow = "OUTGOING_WEBHOOK_RETRY_WORKFLOW"

-- `ProcessTrackerNew::new`: the row that a new task starts from. `encode` is the serialiser of the
-- tracking data, and `current_time` the clock; a `ProcessTrackerNew` has the fields of the row.
unfoldable pub new_process :
    {Time Json T E : Type 0}
    → (T → Result E Json)
    → (current_time : Time) → (process_tracker_id task : String) → ProcessTrackerRunner
    → (tag : List String) → (tracking_data : T) → (schedule_time : Time)
    → Result DatabaseError (ProcessTracker Time Json)
unfolding runner_to_string
new_process encode current_time process_tracker_id task runner tag tracking_data schedule_time = do
  json ← map_err (λ _. DatabaseError.others) (encode tracking_data)
  ok (record {
    id = process_tracker_id;
    name = some task;
    tag = tag;
    runner = some (runner_to_string runner);
    retry_count = pos 0;
    schedule_time = some schedule_time;
    rule = "";
    tracking_data = json;
    business_status = "Pending";
    status = new;
    event = [];
    created_at = current_time;
    updated_at = current_time;
  })
