-- ===== src/Scheduler/ProcessTracker/Update.antt =====
-- `ProcessTrackerUpdate`, and the changeset that it becomes.
use mercado.Prelude.{Option, none, some, String}
use mercado.Prelude.Int.{ℤ}
use mercado.Scheduler.ProcessTracker.{ProcessTrackerStatus, Option, some}

pub data ProcessTrackerUpdate (Time Json : Type 0) : Type 0 where
  update :
      (name : Option String)
      → (retry_count : Option ℤ) → (schedule_time : Option Time) → (tracking_data : Option Json)
      → (business_status : Option String) → (status : Option ProcessTrackerStatus)
      → (updated_at : Option Time) → ProcessTrackerUpdate Time Json
  status_update :
      (status : ProcessTrackerStatus)
      → (business_status : Option String) → ProcessTrackerUpdate Time Json
  status_retry_update :
      (status : ProcessTrackerStatus)
      → (retry_count : ℤ) → (schedule_time : Time) → ProcessTrackerUpdate Time Json

pub record ProcessTrackerUpdateInternal (Time Json : Type 0) : Type 0 where
  pub name : Option String
  pub retry_count : Option ℤ
  pub schedule_time : Option Time
  pub tracking_data : Option Json
  pub business_status : Option String
  pub status : Option ProcessTrackerStatus
  pub updated_at : Option Time

module _ {Time Json : Type 0} where
  -- `Default`: no column but `updated_at`, which is the clock's time.
  unfoldable pub default_update : Time → ProcessTrackerUpdateInternal Time Json
  default_update now = record {
    name = none;
    retry_count = none;
    schedule_time = none;
    tracking_data = none;
    business_status = none;
    status = none;
    updated_at = some now;
  }

  -- `From<ProcessTrackerUpdate>`, at the clock's time `now`.
  unfoldable pub from_update :
      Time → ProcessTrackerUpdate Time Json → ProcessTrackerUpdateInternal Time Json
  unfolding default_update
  from_update now
        (update name retry_count schedule_time tracking_data business_status status updated_at) =
      record {
        name = name;
        retry_count = retry_count;
        schedule_time = schedule_time;
        tracking_data = tracking_data;
        business_status = business_status;
        status = status;
        updated_at = updated_at;
      }
  from_update now (status_update s b) = record (default_update now) {
    status = some s;
    business_status = b;
  }
  from_update now (status_retry_update s r t) = record (default_update now) {
    status = some s;
    retry_count = some r;
    schedule_time = some t;
  }
