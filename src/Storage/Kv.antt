-- ===== src/Storage/Kv.antt =====
-- The key-value store in front of the database: crates/storage_impl/src/redis/kv_store.rs, and
-- `KVRouterStore` of crates/storage_impl/src/lib.rs. CRC-32 and the clock are parameters. With no
-- partition the remainder panics, so a store has at least one.
pub mod Visits
use mercado.Redis.Json.{Json, get_and_deserialize_key}
use mercado.Redis.Commands.{stream_append_entry}
use mercado.Prelude.Results.{ok, err, map_err}
use mercado.Prelude.Int.{ℤ, pos}
use mercado.Drainer.Streams.{u8_to_text}
use mercado.Errors.{
  RedisError, set_add_members_failed, set_nx_failed, json_serialization_failed,
  stream_append_failed,
}
use mercado.Drainer.Entries.{TypedSql, StreamCodec, to_field_value_pairs}
use mercado.Prelude.Exec.{Exec, raise, ◌>>=◌, ◌>>◌, pure, lift, map_error}
use mercado.Redis.Replies.{SetnxReply, HsetnxReply, SaddReply, RedisEntryId}
use mercado.Redis.Hashes.{
  HashPool, sadd, set_hash_fields, get_hash_field_and_deserialize, hscan_and_deserialize,
  serialize_and_set_hash_field_if_not_exist, serialize_and_set_key_if_not_exist,
}
use mercado.Prelude.{
  Option, String, Bool, List, concat_texts, some, ℕ, if◌then◌else◌, none, ◌%◌, ◌∷◌, [],
}

pub data PartitionKey : Type 0 where
  merchant_id_payment_id : (merchant_id payment_id : String) → PartitionKey
  merchant_id_payment_id_combination : (combination : String) → PartitionKey

-- `PartitionKey::fmt`
unfoldable pub to_string : PartitionKey → String
to_string (merchant_id_payment_id merchant_id payment_id) =
    concat_texts ("mid_" ∷ merchant_id ∷ "_pid_" ∷ payment_id ∷ [])
to_string (merchant_id_payment_id_combination combination) = combination

-- The default methods of `KvStorePartition`, with `crc32fast::hash` of the bytes of a text.
module _ (hash : String → ℕ) where
  unfoldable pub partition_number : PartitionKey → (num_partitions : ℕ) → ℕ
  unfolding to_string
  partition_number key num_partitions = hash (to_string key) % num_partitions

  -- The number is below `num_partitions`, a `u8`.
  unfoldable pub shard_key : PartitionKey → (num_partitions : ℕ) → String
  shard_key key num_partitions =
      concat_texts ("shard_" ∷ u8_to_text (partition_number key num_partitions) ∷ [])

pub record KvRouterStore (W Op : Type 0) : Type 0 where
  pub redis_conn : HashPool W
  pub is_redis_available : W → Bool
  pub codec : StreamCodec Op
  pub hash : String → ℕ
  -- `date_time::now_unix_timestamp()`
  pub now : W → ℤ
  pub drainer_stream_name : String
  pub drainer_num_partitions : ℕ
  pub ttl_for_kv : ℕ
  pub request_id : Option String

-- `UniqueConstraints` and `serde::Serialize` of the stored values.
pub record Stored (S : Type 0) : Type 0 where
  pub json : Json S
  pub unique_constraints : S → List String
  pub table_name : S → String

pub data KvOperation (S Op : Type 0) : Type 0 where
  hset : (field value : String) → TypedSql Op → KvOperation S Op
  set_nx : S → TypedSql Op → KvOperation S Op
  hset_nx : (field : String) → S → TypedSql Op → KvOperation S Op
  hget : (field : String) → KvOperation S Op
  get : KvOperation S Op
  scan : (pattern : String) → KvOperation S Op

pub data KvResult (T : Type 0) : Type 0 where
  hget get : T → KvResult T
  hset : KvResult T
  set_nx : SetnxReply → KvResult T
  hset_nx : HsetnxReply → KvResult T
  scan : List T → KvResult T

unfoldable pub unwrap_or_default : Option String → String
unwrap_or_default none = ""
unwrap_or_default (some s) = s

module _ {W Op : Type 0} (store : KvRouterStore W Op) where
  -- crates/storage_impl/src/redis.rs
  unfoldable pub get_redis_conn : Exec W RedisError (HashPool W)
  get_redis_conn w =
      if store.is_redis_available w
      then (ok store.redis_conn, w)
      else (err RedisError.redis_connection_error, w)

  unfoldable pub get_drainer_stream_name : String → String
  get_drainer_stream_name shard = concat_texts ("{" ∷ shard ∷ "}_" ∷ store.drainer_stream_name ∷ [])

  unfoldable pub push_to_drainer_stream : TypedSql Op → PartitionKey → Exec W RedisError (Unit {0})
  unfolding unwrap_or_default get_drainer_stream_name
  push_to_drainer_stream redis_entry partition_key = do
    now ← λ w. (ok (store.now w), w)
    let stream_name =
        get_drainer_stream_name (shard_key store.hash partition_key store.drainer_num_partitions)
    fields ← lift (
        map_err (λ _. json_serialization_failed)
          (to_field_value_pairs store.codec now redis_entry (unwrap_or_default store.request_id)
            (to_string partition_key)))
    map_error (λ _. stream_append_failed)
        (stream_append_entry store.redis_conn.conn stream_name RedisEntryId.auto_generated_id
          fields)

module _ {W Op S T : Type 0} (store : KvRouterStore W Op) (S_stored : Stored S)
    (T_json : Json T) where
  -- The match on the reply of SADD.
  added : SaddReply → Exec W RedisError (Unit {0})
  added SaddReply.key_not_set = raise set_add_members_failed
  added SaddReply.key_set = pure tt

  unfoldable pub check_for_constraints : HashPool W → S → Exec W RedisError (Unit {0})
  unfolding added
  check_for_constraints redis_conn value = do
    sadd_result ←
        sadd redis_conn (concat_texts ("unique_constraint:" ∷ S_stored.table_name value ∷ []))
          (S_stored.unique_constraints value)
    added sadd_result

  -- The arms on the reply of SET NX and HSETNX.
  push_if_key_set : TypedSql Op → PartitionKey → SetnxReply → Exec W RedisError (KvResult T)
  push_if_key_set sql partition_key SetnxReply.key_set = do
    push_to_drainer_stream store sql partition_key
    pure (KvResult.set_nx SetnxReply.key_set)
  push_if_key_set sql partition_key SetnxReply.key_not_set = raise set_nx_failed

  push_if_field_set : TypedSql Op → PartitionKey → HsetnxReply → Exec W RedisError (KvResult T)
  push_if_field_set sql partition_key HsetnxReply.key_set = do
    push_to_drainer_stream store sql partition_key
    pure (KvResult.hset_nx HsetnxReply.key_set)
  push_if_field_set sql partition_key HsetnxReply.key_not_set = raise set_nx_failed

  not_empty : List T → Exec W RedisError (KvResult T)
  not_empty [] = raise RedisError.not_found
  not_empty (t ∷ ts) = pure (KvResult.scan (t ∷ ts))

  -- The match on the operation.
  run_operation : HashPool W → String → KvOperation S Op → Exec W RedisError (KvResult T)
  unfolding check_for_constraints push_if_key_set push_if_field_set not_empty
  run_operation redis_conn key (KvOperation.hset field value sql) = do
    set_hash_fields redis_conn key ((field, value) ∷ []) (some (pos store.ttl_for_kv))
    push_to_drainer_stream store sql (merchant_id_payment_id_combination key)
    pure KvResult.hset
  run_operation redis_conn key (KvOperation.hget field) = do
    result ← get_hash_field_and_deserialize redis_conn T_json key field
    pure (KvResult.hget result)
  run_operation redis_conn key (KvOperation.scan pattern) = do
    result ← hscan_and_deserialize redis_conn T_json key pattern none
    not_empty result
  run_operation redis_conn key (KvOperation.hset_nx field value sql) = do
    check_for_constraints redis_conn value
    result ←
        serialize_and_set_hash_field_if_not_exist redis_conn S_stored.json key field value
          (some store.ttl_for_kv)
    push_if_field_set sql (merchant_id_payment_id_combination key) result
  run_operation redis_conn key (KvOperation.set_nx value sql) = do
    result ←
        serialize_and_set_key_if_not_exist redis_conn S_stored.json key value
          (some (pos store.ttl_for_kv))
    check_for_constraints redis_conn value
    push_if_key_set sql (merchant_id_payment_id_combination key) result
  run_operation redis_conn key KvOperation.get = do
    result ← get_and_deserialize_key redis_conn.conn T_json key
    pure (KvResult.get result)

  unfoldable pub kv_wrapper : KvOperation S Op → String → Exec W RedisError (KvResult T)
  unfolding run_operation
  kv_wrapper op key = do redis_conn ← get_redis_conn store; run_operation redis_conn key op
