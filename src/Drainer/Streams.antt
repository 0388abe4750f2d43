-- ===== src/Drainer/Streams.antt =====
-- The streams of the drainer: crates/drainer/src/stream.rs, with the store of
-- crates/drainer/src/services.rs.
use mercado.Redis.Fred.{Entries}
use mercado.Redis.Replies.{SetnxReply, min_id, exact}
use mercado.Prelude.Exec.{Exec, ◌>>=◌, ◌>>◌, map_error, pure}
use mercado.Errors.{RedisError, DrainerError}
use mercado.Prelude.Results.{Result, ok, err}
use mercado.Redis.Commands.{
  RedisConnectionPool, delete_key, set_key_if_not_exists_with_expiry, stream_read_entries,
  stream_trim_entries, stream_delete_entries,
}
use mercado.Prelude.{
  List, Option, String, ℕ, Bool, get_elem?, some, ◌∷◌, [], if◌then◌else◌, none, ltb, true, ◌/◌,
  false, ◌%◌, ◌+◌,
}
use Prim.Native.String.{◌++◌ as str_append}

pub record StoreConfig : Type 0 where
  pub drainer_stream_name : String
  pub drainer_num_partitions : ℕ

pub record DrainerStore (W : Type 0) : Type 0 where
  pub redis_conn : RedisConnectionPool W
  pub config : StoreConfig

abbrev digits : List String
digits = "0" ∷ "1" ∷ "2" ∷ "3" ∷ "4" ∷ "5" ∷ "6" ∷ "7" ∷ "8" ∷ "9" ∷ []

or_empty : Option String → String
or_empty none = ""
or_empty (some s) = s

digit : ℕ → String
unfolding or_empty
digit k = or_empty (get_elem? digits k)

-- `{stream_index}` in a format string, of a `u8`.
unfoldable pub u8_to_text : ℕ → String
unfolding digit
u8_to_text n =
    if ltb n 10
    then digit n
    else if ltb n 100
    then str_append (digit (n / 10)) (digit (n % 10))
    else str_append (digit (n / 100)) (str_append (digit (n / 10 % 10)) (digit (n % 10)))

module _ {W : Type 0} (store : DrainerStore W) where
  unfoldable pub drainer_stream : String → String
  drainer_stream shard_key =
      str_append "{" (str_append shard_key (str_append "}_" store.config.drainer_stream_name))

  unfoldable pub get_drainer_stream_name : ℕ → String
  unfolding drainer_stream u8_to_text
  get_drainer_stream_name stream_index =
      drainer_stream (str_append "shard_" (u8_to_text stream_index))

  unfoldable pub get_stream_key_flag : ℕ → String
  unfolding get_drainer_stream_name
  get_stream_key_flag stream_index = str_append (get_drainer_stream_name stream_index) "_in_use"

  is_key_set : Result RedisError SetnxReply → Bool
  is_key_set (ok SetnxReply.key_set) = true
  is_key_set (ok SetnxReply.key_not_set) = false
  is_key_set (err error) = false

  unfoldable pub is_stream_available : ℕ → W → Bool × W
  unfolding get_stream_key_flag set_key_if_not_exists_with_expiry is_key_set
  is_stream_available stream_index w =
      let (reply, w') =
        set_key_if_not_exists_with_expiry store.redis_conn (get_stream_key_flag stream_index) "true"
          none w in
      (is_key_set reply, w')

  unfoldable pub make_stream_available : String → Exec W DrainerError (Unit {0})
  unfolding delete_key
  make_stream_available stream_name_flag = do
    map_error DrainerError.redis_error (delete_key store.redis_conn stream_name_flag)
    pure tt

  -- The id "0-0" gives the first entry.
  unfoldable pub read_from_stream :
      String → (max_read_count : ℕ) → Exec W DrainerError (List (String × Entries String))
  unfolding stream_read_entries
  read_from_stream stream_name max_read_count =
      map_error DrainerError.redis_error
        (stream_read_entries store.redis_conn stream_name "0-0" (some max_read_count))

  -- XTRIM keeps the entry with the given id, which is deleted after it and counted too.
  unfoldable pub trim_from_stream : String → (minimum_entry_id : String) → Exec W DrainerError ℕ
  unfolding stream_trim_entries stream_delete_entries
  trim_from_stream stream_name minimum_entry_id = do
    trim_result ←
        map_error DrainerError.redis_error
          (stream_trim_entries store.redis_conn stream_name min_id exact minimum_entry_id)
    map_error DrainerError.redis_error
        (stream_delete_entries store.redis_conn stream_name (minimum_entry_id ∷ []))
    pure (trim_result + 1)
