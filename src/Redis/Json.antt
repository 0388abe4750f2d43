-- ===== src/Redis/Json.antt =====
-- The commands that write and read a key as JSON, crates/redis_interface/src/commands.rs. serde_json is a
-- parameter.
use mercado.Prelude.Results.{ok_or}
use mercado.Errors.{RedisError, json_serialization_failed}
use mercado.Prelude.Exec.{Exec, ◌>>=◌, lift, raise}
use mercado.Redis.Commands.{RedisConnectionPool, get_key, set_key}
use mercado.Prelude.{Option, String, Bool, some, none, true, false, if◌then◌else◌}

-- serde_json for one type of values.
pub record Json (T : Type 0) : Type 0 where
  pub encode_to_vec : T → Option String
  pub parse_struct : String → Option T

-- An answer nil is an empty vector.
unfoldable pub bytes : Option String → String
bytes none = ""
bytes (some s) = s

unfoldable pub is_empty : String → Bool
is_empty String.[] = true
is_empty (String.◌∷◌ c s) = false

module _ {W T : Type 0} (redis : RedisConnectionPool W) (json : Json T) where
  unfoldable pub get_and_deserialize_key : String → Exec W RedisError T
  unfolding bytes is_empty
  get_and_deserialize_key key = do
    value ← get_key redis key
    (if is_empty (bytes value)
        then raise RedisError.not_found
        else lift (ok_or (json.parse_struct (bytes value)) RedisError.json_deserialization_failed))

  unfoldable pub serialize_and_set_key : String → T → Exec W RedisError (Unit {0})
  serialize_and_set_key key value = do
    serialized ← lift (ok_or (json.encode_to_vec value) json_serialization_failed)
    set_key redis key serialized
