-- ===== src/Redis/Commands.antt =====
-- `RedisConnectionPool`: crates/redis_interface/src/commands.rs, the commands that the scheduler and
-- the drainer send. Values are text.
use mercado.Redis.Replies.{parse, auto_generated_id, undelivered_entry_id, RedisErrorKind}
use mercado.Prelude.Int.{ℤ, pos}
use mercado.Prelude.Exec.{Exec, map_error, raise, ◌>>=◌, ◌>>◌, lift, pure}
use mercado.Prelude.Results.{Result}
use mercado.Errors.{
  RedisError, stream_empty_or_not_available, delete_failed, get_failed, invalid_redis_entry_id,
  set_ex_failed, set_expiry_failed, set_failed, stream_acknowledge_failed, stream_append_failed,
  stream_delete_failed, stream_read_failed, stream_trim_failed, consumer_group_create_failed,
}
use mercado.Redis.Replies.{
  FredValue, RedisErrorKind, del_from_value, setnx_from_value, to_xid, RedisEntryId, StreamCapKind,
  DelReply, SetnxReply, StreamCapTrim,
}
use mercado.Redis.Fred.{Fred, Entries}
use mercado.Prelude.{Option, String, List, ℕ, some, none, false, true}

pub record RedisConnectionPool (W : Type 0) : Type 0 where
  pub pool : Fred W
  -- of the configuration, in seconds
  pub default_ttl : ℕ
  pub default_stream_read_count : ℕ

-- The two kinds of an empty read.
unfoldable pub read_error : RedisErrorKind → RedisError
read_error RedisErrorKind.not_found = stream_empty_or_not_available
read_error parse = stream_empty_or_not_available
read_error _ = stream_read_failed

module _ {W : Type 0} (conn : RedisConnectionPool W) where
  -- fred turns the reply into the type that the caller asks for.
  reply :
      {A : Type 0}
      → (FredValue → Result RedisErrorKind A)
      → Exec W RedisErrorKind FredValue
      → Exec W RedisErrorKind A
  reply from_value command = do value ← command; lift (from_value value)

  unfoldable pub set_key : String → String → Exec W RedisError (Unit {0})
  set_key key value = do
    map_error (λ _. set_failed) (conn.pool.set key value (pos conn.default_ttl) false)
    pure tt

  unfoldable pub set_key_with_expiry : String → String → ℤ → Exec W RedisError (Unit {0})
  set_key_with_expiry key value seconds = do
    map_error (λ _. set_ex_failed) (conn.pool.set key value seconds false)
    pure tt

  unfoldable pub get_key : String → Exec W RedisError (Option String)
  get_key key = map_error (λ _. get_failed) (conn.pool.get key)

  unwrap_or : Option ℤ → ℤ → ℤ
  unwrap_or none d = d
  unwrap_or (some x) d = x

  unfoldable pub set_key_if_not_exists_with_expiry :
      String → String → (seconds : Option ℤ) → Exec W RedisError SetnxReply
  unfolding reply setnx_from_value unwrap_or
  set_key_if_not_exists_with_expiry key value seconds =
      map_error (λ _. set_failed)
        (reply setnx_from_value
          (conn.pool.set key value (unwrap_or seconds (pos conn.default_ttl)) true))

  unfoldable pub set_expiry : String → ℤ → Exec W RedisError (Unit {0})
  set_expiry key seconds = map_error (λ _. set_expiry_failed) (conn.pool.expire key seconds)

  unfoldable pub delete_key : String → Exec W RedisError DelReply
  unfolding reply del_from_value
  delete_key key = map_error (λ _. delete_failed) (reply del_from_value (conn.pool.del key))

  unfoldable pub stream_append_entry :
      String → RedisEntryId → List (String × String) → Exec W RedisError (Unit {0})
  unfolding to_xid
  stream_append_entry stream entry_id fields =
      map_error (λ _. stream_append_failed) (conn.pool.xadd stream (to_xid entry_id) fields)

  unfoldable pub stream_delete_entries : String → List String → Exec W RedisError ℕ
  stream_delete_entries stream ids =
      map_error (λ _. stream_delete_failed) (conn.pool.xdel stream ids)

  unfoldable pub stream_trim_entries :
      String → StreamCapKind → StreamCapTrim → String → Exec W RedisError ℕ
  stream_trim_entries stream kind trim threshold =
      map_error (λ _. stream_trim_failed) (conn.pool.xtrim stream kind trim threshold)

  unfoldable pub stream_acknowledge_entries : String → String → List String → Exec W RedisError ℕ
  stream_acknowledge_entries stream group ids =
      map_error (λ _. stream_acknowledge_failed) (conn.pool.xack stream group ids)

  unwrap_or_ℕ : Option ℕ → ℕ → ℕ
  unwrap_or_ℕ none d = d
  unwrap_or_ℕ (some x) d = x

  unfoldable pub stream_read_entries :
      String → String → (read_count : Option ℕ) → Exec W RedisError (List (String × Entries String))
  unfolding read_error unwrap_or_ℕ
  stream_read_entries stream id read_count =
      map_error read_error (
        conn.pool.xread_map (some (unwrap_or_ℕ read_count conn.default_stream_read_count)) stream
          id)

  -- With a group and without blocking, as `get_batches` calls it.
  unfoldable pub stream_read_with_options :
      String
      → RedisEntryId
      → (count : Option ℕ) → (group_name consumer_name : String)
      → Exec W RedisError (List (String × Entries (Option String)))
  unfolding read_error to_xid
  stream_read_with_options stream id count group_name consumer_name =
      map_error read_error
        (conn.pool.xreadgroup_map group_name consumer_name count stream (to_xid id))

  unfoldable pub consumer_group_create :
      String → String → RedisEntryId → Exec W RedisError (Unit {0})
  unfolding to_xid
  consumer_group_create stream group auto_generated_id = raise invalid_redis_entry_id
  consumer_group_create stream group undelivered_entry_id = raise invalid_redis_entry_id
  consumer_group_create stream group id =
      map_error (λ _. consumer_group_create_failed)
        (conn.pool.xgroup_create stream group (to_xid id))
