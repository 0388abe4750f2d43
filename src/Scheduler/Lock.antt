-- ===== src/Scheduler/Lock.antt =====
-- `lock_acquire_release` of crates/scheduler/src/utils.rs.
pub mod Release
pub mod Exclusion
use mathlib.Core.Option
use mercado.Prelude.Results.{Result, ok, err}
use mercado.Errors.{ProcessTrackerError, RedisError}
use mercado.Prelude.Exec.{Exec, on_result, ◌>>=◌, map_error, ◌>>◌, lift, pure}
use mercado.Config.Settings.{SchedulerSettings}
use mercado.Prelude.{String, if◌then◌else◌, Option, Bool, some, true, false}
use mercado.Scheduler.Interface.{SchedulerInterface}

module _ {W Time Json : Type 0} (db : SchedulerInterface W Time Json) where
  -- What the call gives: `none` when the callback panics, which ends the task with the lock held.
  abbrev pub Outcome : Type 0
  Outcome = Option (Result ProcessTrackerError (Unit {0}) × W)

  -- The callback's result is returned only after the lock is released.
  release_after :
      (lock_key : String)
      → Result ProcessTrackerError (Unit {0}) × W
      → Result ProcessTrackerError (Unit {0}) × W
  release_after lock_key (result, w) =
      (map_error ProcessTrackerError.e_redis_error
            (db.queue.release_pt_lock "PRODUCER_LOCK" lock_key)
          >> lift result)
        w

  -- The arms on whether the lock is acquired, and its `?`.
  when_acquired :
      (lock_key : String) → (callback : W → Outcome) → Result ProcessTrackerError Bool × W → Outcome
  unfolding release_after
  when_acquired lock_key callback (ok true, w) = Option.map (release_after lock_key) (callback w)
  when_acquired lock_key callback (ok false, w) = some (ok tt, w)
  when_acquired lock_key callback (err error, w) = some (err error, w)

  unfoldable pub lock_acquire_release : SchedulerSettings → (callback : W → Outcome) → W → Outcome
  unfolding when_acquired
  lock_acquire_release settings callback w = when_acquired settings.producer.lock_key callback (
      map_error (λ _. ProcessTrackerError.e_redis_error RedisError.redis_connection_error)
        (db.queue.acquire_pt_lock "PRODUCER_LOCK" settings.producer.lock_key "LOCKED"
          settings.producer.lock_ttl)
        w)
