-- ===== src/Scheduler/Batch.antt =====
-- Batches of tasks: `ProcessTrackerBatch` of crates/scheduler/src/consumer/types/batch.rs, and `divide`
-- and `divide_into_batches` of crates/scheduler/src/utils.rs, with the settings they read
-- (crates/data_models/src/configs/settings.rs).
pub mod Division
pub mod Wire
use mercado.Config.Settings.{SchedulerSettings}
use mathlib.Core.Option
use mercado.Prelude.{
  Bool, String, ℕ, List, Option, [], map, none, suc, some, ◌∷◌, length, take, drop, zero,
}
use mercado.Prelude.Int.{ℤ}
use mercado.Scheduler.ProcessTracker.{ProcessTracker}

pub record ProcessTrackerBatch (Time Json : Type 0) : Type 0 where
  pub id : String
  pub group_name : String
  pub stream_name : String
  pub connection_name : String
  pub created_time : Time
  pub rule : String
  pub trackers : List (ProcessTracker Time Json)

-- `slice::chunks`, of a size that is not 0, with a bound on the number of chunks.
unfoldable pub chunks_within {ℓ} : {A : Type ℓ} → ℕ → ℕ → List A → List (List A)
chunks_within zero size xs = []
chunks_within (suc fuel) size [] = []
chunks_within (suc fuel) size (x ∷ xs) =
    take size (x ∷ xs) ∷ chunks_within fuel size (drop size (x ∷ xs))

-- It panics on size 0: `none`. Each chunk takes an element, so the length of the list bounds them.
unfoldable pub chunks {ℓ} : {A : Type ℓ} → ℕ → List A → Option (List (List A))
unfolding chunks_within
chunks zero xs = none
chunks (suc k) xs = some (chunks_within (length xs) (suc k) xs)

module _ {Time Json : Type 0} where
  -- The closure of the fold, at one chunk.
  unfoldable pub batch_of :
      (batch_id : String)
      → (batch_creation_time : Time) → SchedulerSettings
      → List (ProcessTracker Time Json)
      → ProcessTrackerBatch Time Json
  batch_of batch_id batch_creation_time conf item = record {
    id = batch_id;
    group_name = conf.consumer.consumer_group;
    stream_name = conf.stream;
    connection_name = "";
    created_time = batch_creation_time;
    rule = "";
    trackers = item;
  }

  -- `batch_id` is the random UUID that the function draws.
  unfoldable pub divide_into_batches :
      (batch_id : String)
      → (batch_size : ℕ) → (tasks : List (ProcessTracker Time Json)) → (batch_creation_time : Time)
      → SchedulerSettings
      → Option (List (ProcessTrackerBatch Time Json))
  unfolding chunks batch_of
  divide_into_batches batch_id batch_size tasks batch_creation_time conf =
      Option.map (map (batch_of batch_id batch_creation_time conf)) (chunks batch_size tasks)

  unfoldable pub divide :
      (batch_id : String)
      → (now : Time) → (tasks : List (ProcessTracker Time Json)) → SchedulerSettings
      → Option (List (ProcessTrackerBatch Time Json))
  unfolding divide_into_batches
  divide batch_id now tasks conf =
      divide_into_batches batch_id conf.producer.batch_size tasks now conf
