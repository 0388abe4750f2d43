-- ===== src/Storage/Cache.antt =====
-- The caches in front of the database, crates/storage_impl/src/redis/cache.rs: a cache in memory before
-- one in Redis. The moka cache and serde_json are parameters.
pub mod Coherence
use mercado.Redis.Json.{Json, get_and_deserialize_key, serialize_and_set_key}
use mercado.Prelude.Results.{Result, ok, err, ok_or}
use mercado.Errors.{RedisError, StorageError, kv_error, redis_error, json_serialization_failed}
use mercado.Prelude.Exec.{Exec, on_result, pure, ◌>>=◌, lift, map_error, ◌>>◌, raise}
use mercado.Redis.Commands.{RedisConnectionPool, get_key, delete_key, set_key}
use mercado.Prelude.{Option, String, Bool, some, none, true, false, if◌then◌else◌}

-- A moka cache of `Arc<dyn Cacheable>`, which evicts values on its own.
pub record Moka (W Dyn : Type 0) : Type 0 where
  pub get : String → W → Option Dyn × W
  pub insert : String → Dyn → W → W
  pub invalidate : String → W → W

-- serde_json and the casts to and from `dyn Cacheable`, for one type of values.
pub record Cacheable (Dyn T : Type 0) : Type 0 where
  pub json : Json T
  pub as_any : T → Dyn
  pub downcast_ref : Dyn → Option T

module _ {W Dyn : Type 0} (cache : Moka W Dyn) {T : Type 0} (C : Cacheable Dyn T) where
  unfoldable pub push : String → T → W → W
  push key val = cache.insert key (C.as_any val)

  and_downcast : Option Dyn → Option T
  and_downcast none = none
  and_downcast (some val) = C.downcast_ref val

  unfoldable pub get_val : String → W → Option T × W
  unfolding and_downcast
  get_val key w = let (val, w') = cache.get key w in (and_downcast val, w')

module _ {W Dyn T : Type 0} (redis : RedisConnectionPool W) (C : Cacheable Dyn T) where
  -- The closure of get_or_populate_redis.
  unfoldable pub get_data_set_redis : String → Exec W StorageError T → Exec W StorageError T
  get_data_set_redis key fun = do
    fetched ← fun
    map_error (λ _. kv_error) (serialize_and_set_key redis C.json key fetched)
    pure fetched

  -- The match on what Redis holds.
  unfoldable pub or_populate :
      String → Exec W StorageError T → Result RedisError T → Exec W StorageError T
  or_populate key fun (ok val) = pure val
  or_populate key fun (err RedisError.not_found) = get_data_set_redis key fun
  or_populate key fun (err RedisError.json_deserialization_failed) = get_data_set_redis key fun
  or_populate key fun (err _) = raise kv_error

-- `store.get_redis_conn()`
abbrev pub Connect : Type 0 → Type 0
Connect W = Exec W RedisError (RedisConnectionPool W)

module _ {W Dyn T : Type 0} (get_redis_conn : Connect W) (C : Cacheable Dyn T) where
  unfoldable pub get_or_populate_redis : String → Exec W StorageError T → Exec W StorageError T
  get_or_populate_redis key fun = do
    redis ← map_error redis_error get_redis_conn
    on_result (get_and_deserialize_key redis C.json key) (or_populate redis C key fun)

  -- The branch of a value that is not in memory.
  unfoldable pub populate_in_memory :
      String → Exec W StorageError T → Moka W Dyn → Exec W StorageError T
  populate_in_memory key fun cache = do
    val ← get_or_populate_redis key fun
    λ w. (ok val, push cache C key val w)

  in_memory_or : String → Exec W StorageError T → Moka W Dyn → Option T → Exec W StorageError T
  unfolding populate_in_memory
  in_memory_or key fun cache (some val) = pure val
  in_memory_or key fun cache none = populate_in_memory key fun cache

  unfoldable pub get_or_populate_in_memory :
      String → Exec W StorageError T → Moka W Dyn → Exec W StorageError T
  unfolding in_memory_or
  get_or_populate_in_memory key fun cache w =
      let (cache_val, w') = get_val cache C key w in in_memory_or key fun cache cache_val w'

module _ {W Dyn : Type 0} (get_redis_conn : Connect W) where
  -- `in_memory.async_map(|cache| cache.invalidate(key))`
  invalidate_in : Option (Moka W Dyn) → String → W → W
  invalidate_in none key w = w
  invalidate_in (some cache) key w = cache.invalidate key w

  unfoldable pub redact_cache :
      {T : Type 0} → String → Exec W StorageError T → Option (Moka W Dyn) → Exec W StorageError T
  unfolding invalidate_in
  redact_cache key fun in_memory = do
    fetched ← fun
    λ w. (ok tt, invalidate_in in_memory key w)
    redis_conn ← map_error redis_error get_redis_conn
    map_error (λ _. kv_error) (delete_key redis_conn key)
    pure fetched
