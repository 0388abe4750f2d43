-- ===== src/Scheduler/Interface.antt =====
-- The traits `ProcessTrackerInterface`, `QueueInterface` and `SchedulerInterface` of
-- crates/scheduler/src/db/process_tracker.rs, db/queue.rs and scheduler.rs, with the clock beside them.
pub mod Laws
use mercado.Prelude.Int.{ℤ}
use mercado.Scheduler.ProcessTracker.Update.{ProcessTrackerUpdate}
use mercado.Redis.Replies.{RedisEntryId}
use mercado.Scheduler.ProcessTracker.{ProcessTracker, ProcessTrackerStatus}
use mercado.Errors.{ProcessTrackerError, StorageError, RedisError}
use mercado.Prelude.Exec.{Exec}
use mercado.Scheduler.Tasks.{Clock}
use mercado.Prelude.{List, String, ℕ, Option, Bool}

pub record ProcessTrackerInterface (W Time Json : Type 0) : Type 0 where
  pub reinitialize_limbo_processes : List String → Time → Exec W StorageError ℕ
  pub find_process_by_id : String → Exec W StorageError (Option (ProcessTracker Time Json))
  pub update_process :
      ProcessTracker Time Json
      → ProcessTrackerUpdate Time Json
      → Exec W StorageError (ProcessTracker Time Json)
  pub process_tracker_update_process_status_by_ids :
      List String → ProcessTrackerUpdate Time Json → Exec W StorageError ℕ
  pub insert_process : ProcessTracker Time Json → Exec W StorageError (ProcessTracker Time Json)
  pub reset_process : ProcessTracker Time Json → Time → Exec W StorageError (Unit {0})
  pub retry_process : ProcessTracker Time Json → Time → Exec W StorageError (Unit {0})
  pub finish_process_with_business_status :
      ProcessTracker Time Json → String → Exec W StorageError (Unit {0})
  pub find_processes_by_time_status :
      Time
      → Time
      → ProcessTrackerStatus
      → Option ℤ
      → Exec W StorageError (List (ProcessTracker Time Json))

pub record QueueInterface (W Time Json : Type 0) : Type 0 where
  pub fetch_consumer_tasks :
      (stream_name group_name consumer_name : String)
      → Exec W ProcessTrackerError (List (ProcessTracker Time Json))
  pub consumer_group_create : String → String → RedisEntryId → Exec W RedisError (Unit {0})
  pub acquire_pt_lock : (tag lock_key lock_val : String) → (ttl : ℤ) → Exec W RedisError Bool
  pub release_pt_lock : (tag lock_key : String) → Exec W RedisError Bool
  pub stream_append_entry :
      String → RedisEntryId → List (String × String) → Exec W RedisError (Unit {0})
  pub get_key : String → Exec W RedisError (Option String)

pub record SchedulerInterface (W Time Json : Type 0) : Type 0 where
  pub tracker : ProcessTrackerInterface W Time Json
  pub queue : QueueInterface W Time Json
  pub clock : Clock W Time
