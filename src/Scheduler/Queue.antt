-- ===== src/Scheduler/Queue.antt =====
-- `impl QueueInterface for Store`: crates/scheduler/src/db/queue.rs, and `impl SchedulerInterface for
-- Store`. Whether Redis is available is a flag of the connection pool, which a background task sets.
use mercado.Redis.Replies.{RedisEntryId, DelReply, SetnxReply}
use mercado.Prelude.Int.{ℤ}
use mercado.Errors.{RedisError}
use mercado.Scheduler.Interface.{ProcessTrackerInterface}
use mercado.Prelude.Results.{Result, ok, err}
use mercado.Prelude.Exec.{Exec, ◌>>=◌, on_result, pure}
use mercado.Prelude.{Bool, String, List, Option, if◌then◌else◌, true, false, none}
use mercado.Redis.Commands.{
  RedisConnectionPool, delete_key, set_expiry, set_key_if_not_exists_with_expiry,
}
use mercado.Redis.Commands
use mercado.Scheduler.Store

pub record SchedulerStore (W Time Json : Type 0) : Type 0 where
  pub store : Store.Store W Time Json
  pub redis_conn : RedisConnectionPool W
  pub is_redis_available : W → Bool

module _ {W Time Json : Type 0} (s : SchedulerStore W Time Json) where
  -- crates/storage_impl/src/redis.rs
  unfoldable pub get_redis_conn : Exec W RedisError (RedisConnectionPool W)
  get_redis_conn w =
      if s.is_redis_available w
      then (ok s.redis_conn, w)
      else (err RedisError.redis_connection_error, w)

  -- The arms of the match on the lock's expiry.
  after_expiry : (lock_key : String) → Result RedisError (Unit {0}) → Exec W RedisError Bool
  unfolding delete_key
  after_expiry lock_key (ok x) = pure true
  after_expiry lock_key (err error) =
      on_result (delete_key s.redis_conn lock_key) (λ ignored. pure false)

  -- The arms of the match on the lock.
  after_lock :
      (lock_key : String) → (ttl : ℤ) → Result RedisError SetnxReply → Exec W RedisError Bool
  unfolding after_expiry set_expiry
  after_lock lock_key ttl (ok SetnxReply.key_set) =
      on_result (set_expiry s.redis_conn lock_key ttl) (after_expiry lock_key)
  after_lock lock_key ttl (ok SetnxReply.key_not_set) = pure false
  after_lock lock_key ttl (err error) = pure false

  unfoldable pub acquire_pt_lock :
      (tag lock_key lock_val : String) → (ttl : ℤ) → Exec W RedisError Bool
  unfolding get_redis_conn after_lock set_key_if_not_exists_with_expiry
  acquire_pt_lock tag lock_key lock_val ttl = do
    conn ← get_redis_conn
    on_result (set_key_if_not_exists_with_expiry conn lock_key lock_val none)
        (after_lock lock_key ttl)

  is_released : Result RedisError DelReply → Bool
  is_released (ok del_reply) = true
  is_released (err error) = false

  unfoldable pub release_pt_lock : (tag lock_key : String) → Exec W RedisError Bool
  unfolding get_redis_conn is_released delete_key
  release_pt_lock tag lock_key = do
    conn ← get_redis_conn
    on_result (delete_key conn lock_key) (λ reply. pure (is_released reply))

  unfoldable pub stream_append_entry :
      String → RedisEntryId → List (String × String) → Exec W RedisError (Unit {0})
  unfolding get_redis_conn
  stream_append_entry stream entry_id fields = do
    conn ← get_redis_conn
    Commands.stream_append_entry conn stream entry_id fields

  unfoldable pub consumer_group_create :
      String → String → RedisEntryId → Exec W RedisError (Unit {0})
  unfolding get_redis_conn
  consumer_group_create stream group id = do
    conn ← get_redis_conn
    Commands.consumer_group_create conn stream group id

  unfoldable pub get_key : String → Exec W RedisError (Option String)
  unfolding get_redis_conn
  get_key key = do conn ← get_redis_conn; Commands.get_key conn key

  unfoldable pub tracker_interface : ProcessTrackerInterface W Time Json
  tracker_interface = record {
    reinitialize_limbo_processes = Store.reinitialize_limbo_processes s.store;
    find_process_by_id = Store.find_process_by_id s.store;
    update_process = Store.update_process s.store;
    process_tracker_update_process_status_by_ids =
        Store.process_tracker_update_process_status_by_ids s.store;
    insert_process = Store.insert_process s.store;
    reset_process = Store.reset_process s.store;
    retry_process = Store.retry_process s.store;
    finish_process_with_business_status = Store.finish_process_with_business_status s.store;
    find_processes_by_time_status = Store.find_processes_by_time_status s.store;
  }
