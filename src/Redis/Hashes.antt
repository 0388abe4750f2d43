-- ===== src/Redis/Hashes.antt =====
-- The commands on hashes and sets, and the serialising ones, of
-- crates/redis_interface/src/commands.rs. Values are text, and serde_json is a parameter.
use mercado.Redis.Json.{Json, bytes, is_empty}
use mercado.Errors.{
  RedisError, get_failed, get_hash_field_failed, set_add_members_failed, set_expiry_failed,
  set_failed, set_hash_failed, set_hash_field_failed, json_serialization_failed,
  json_deserialization_failed,
}
use mercado.Prelude.Int.{ℤ, pos}
use mercado.Prelude.Exec.{Exec, map_error, ◌>>=◌, ◌>>◌, lift, pure, raise}
use mercado.Prelude.Results.{Result, ok, ok_or, err}
use mercado.Redis.Replies.{
  FredValue, hsetnx_from_value, msetnx_from_value, sadd_from_value, RedisErrorKind, HsetnxReply,
  MsetnxReply, SaddReply, SetnxReply,
}
use mercado.Redis.Commands.{
  RedisConnectionPool, set_expiry, set_key_if_not_exists_with_expiry, set_key_with_expiry,
}
use mercado.Prelude.{List, Option, String, Bool, some, ℕ, ◌∷◌, [], none, ◌++◌, if◌then◌else◌, map}

-- The further commands of fred, beside those of `Fred`.
pub record FredHashes (W : Type 0) : Type 0 where
  -- EXISTS key
  pub exists : String → Exec W RedisErrorKind Bool
  -- EXPIREAT key timestamp
  pub expire_at : String → (timestamp : ℤ) → Exec W RedisErrorKind (Unit {0})
  -- MSETNX pairs
  pub msetnx : List (String × String) → Exec W RedisErrorKind FredValue
  -- MGET keys
  pub mget : List String → Exec W RedisErrorKind (List (Option String))
  -- HSET key fields
  pub hset : String → List (String × String) → Exec W RedisErrorKind (Unit {0})
  -- HSETNX key field value
  pub hsetnx : String → String → String → Exec W RedisErrorKind FredValue
  -- HGET key field
  pub hget : String → String → Exec W RedisErrorKind (Option String)
  -- HSCAN key pattern count: the pages of the scan, each an error, or the results it has left
  pub hscan :
      String
      → String
      → (count : Option ℕ) → W
      → List (Result RedisErrorKind (Option (List (String × FredValue)))) × W
  -- SADD key members
  pub sadd : String → List String → Exec W RedisErrorKind FredValue
  -- `RedisValue::as_string`
  pub as_string : FredValue → Option String

pub record HashPool (W : Type 0) : Type 0 where
  pub conn : RedisConnectionPool W
  pub hashes : FredHashes W
  -- of the configuration, in seconds
  pub default_hash_ttl : ℕ

module _ {A : Type 0} where
  unwrap_or : Option A → A → A
  unwrap_or none d = d
  unwrap_or (some x) d = x

  -- `filter_map`, of what a page of a scan gives.
  filter_some : List (Option A) → List A
  filter_some [] = []
  filter_some (none ∷ os) = filter_some os
  filter_some (some a ∷ os) = a ∷ filter_some os

abbrev map_ok : {A B : Type 0} → (A → B) → Result RedisError A → Result RedisError B
map_ok f (ok a) = ok (f a)
map_ok f (err e) = err e

-- `collect`: the first error ends it.
collect : {A : Type 0} → List (Result RedisError A) → Result RedisError (List A)
collect [] = ok []
collect (ok a ∷ rs) = map_ok (◌∷◌ a) (collect rs)
collect (err e ∷ rs) = err e

module _ {W : Type 0} (redis : HashPool W) where
  -- fred turns the reply into the type that the caller asks for.
  reply :
      {A : Type 0}
      → (FredValue → Result RedisErrorKind A)
      → Exec W RedisErrorKind FredValue
      → Exec W RedisErrorKind A
  reply from_value command = do value ← command; lift (from_value value)

  unfoldable pub set_multiple_keys_if_not_exist :
      List (String × String) → Exec W RedisError MsetnxReply
  unfolding reply msetnx_from_value
  set_multiple_keys_if_not_exist value =
      map_error (λ _. set_failed) (reply msetnx_from_value (redis.hashes.msetnx value))

  unfoldable pub exists : String → Exec W RedisError Bool
  exists key = map_error (λ _. get_failed) (redis.hashes.exists key)

  unfoldable pub set_expire_at : String → ℤ → Exec W RedisError (Unit {0})
  set_expire_at key timestamp =
      map_error (λ _. set_expiry_failed) (redis.hashes.expire_at key timestamp)

  unfoldable pub set_hash_fields :
      String → List (String × String) → (ttl : Option ℤ) → Exec W RedisError (Unit {0})
  unfolding unwrap_or
  set_hash_fields key values ttl = do
    map_error (λ _. set_hash_failed) (redis.hashes.hset key values)
    set_expiry redis.conn key (unwrap_or ttl (pos redis.default_hash_ttl))

  unfoldable pub set_hash_field_if_not_exist :
      String → String → String → (ttl : Option ℕ) → Exec W RedisError HsetnxReply
  unfolding reply unwrap_or hsetnx_from_value
  set_hash_field_if_not_exist key field value ttl = do
    inner ←
        map_error (λ _. set_hash_field_failed)
          (reply hsetnx_from_value (redis.hashes.hsetnx key field value))
    set_expiry redis.conn key (pos (unwrap_or ttl redis.default_hash_ttl))
    pure inner

  unfoldable pub get_multiple_keys : List String → Exec W RedisError (List (Option String))
  get_multiple_keys keys = map_error (λ _. get_failed) (redis.hashes.mget keys)

  unfoldable pub get_hash_field : String → String → Exec W RedisError String
  unfolding bytes
  get_hash_field key field = do
    value ← map_error (λ _. get_hash_field_failed) (redis.hashes.hget key field)
    pure (bytes value)

  unfoldable pub sadd : String → List String → Exec W RedisError SaddReply
  unfolding reply sadd_from_value
  sadd key members =
      map_error (λ _. set_add_members_failed)
        (reply sadd_from_value (redis.hashes.sadd key members))

  -- The texts of one page: those of an error, or of a page whose results are taken, are none.
  page_texts : Result RedisErrorKind (Option (List (String × FredValue))) → List String
  unfolding filter_some
  page_texts (ok (some v)) = filter_some (map (λ p. redis.hashes.as_string p.1) v)
  page_texts (ok none) = []
  page_texts (err e) = []

  pages_texts : List (Result RedisErrorKind (Option (List (String × FredValue)))) → List String
  unfolding page_texts
  pages_texts [] = []
  pages_texts (p ∷ ps) = page_texts p ++ pages_texts ps

  unfoldable pub hscan : String → String → (count : Option ℕ) → Exec W RedisError (List String)
  unfolding pages_texts
  hscan key pattern count w =
      let (pages, w') = redis.hashes.hscan key pattern count w in (ok (pages_texts pages), w')

module _ {W T : Type 0} (redis : HashPool W) (json : Json T) where
  unfoldable pub serialize_and_set_key_if_not_exist :
      String → T → (ttl : Option ℤ) → Exec W RedisError SetnxReply
  serialize_and_set_key_if_not_exist key value ttl = do
    serialized ← lift (ok_or (json.encode_to_vec value) json_serialization_failed)
    set_key_if_not_exists_with_expiry redis.conn key serialized ttl

  unfoldable pub serialize_and_set_key_with_expiry : String → T → ℤ → Exec W RedisError (Unit {0})
  serialize_and_set_key_with_expiry key value seconds = do
    serialized ← lift (ok_or (json.encode_to_vec value) json_serialization_failed)
    set_key_with_expiry redis.conn key serialized seconds

  unfoldable pub serialize_and_set_hash_field_if_not_exist :
      String → String → T → (ttl : Option ℕ) → Exec W RedisError HsetnxReply
  serialize_and_set_hash_field_if_not_exist key field value ttl = do
    serialized ← lift (ok_or (json.encode_to_vec value) json_serialization_failed)
    set_hash_field_if_not_exist redis key field serialized ttl

  -- The loop; what was set before an error stays set.
  unfoldable pub serialize_and_set_multiple_hash_field_if_not_exist :
      List (String × T) → String → (ttl : Option ℕ) → Exec W RedisError (List HsetnxReply)
  serialize_and_set_multiple_hash_field_if_not_exist [] field ttl = pure []
  serialize_and_set_multiple_hash_field_if_not_exist ((key, val) ∷ kv) field ttl = do
    r ← serialize_and_set_hash_field_if_not_exist key field val ttl
    rs ← serialize_and_set_multiple_hash_field_if_not_exist kv field ttl
    pure (r ∷ rs)

  parse_one : Option String → Result RedisError (Option T)
  parse_one none = ok none
  parse_one (some text) = map_ok some (ok_or (json.parse_struct text) json_serialization_failed)

  parse_all : List (Option String) → Result RedisError (List (Option T))
  unfolding collect parse_one
  parse_all values = collect (map parse_one values)

  unfoldable pub get_and_deserialize_multiple_keys :
      List String → Exec W RedisError (List (Option T))
  unfolding parse_all
  get_and_deserialize_multiple_keys keys = do
    values ← get_multiple_keys redis keys
    lift (parse_all values)

  unfoldable pub hscan_and_deserialize :
      String → String → (count : Option ℕ) → Exec W RedisError (List T)
  unfolding filter_some
  hscan_and_deserialize key pattern count = do
    redis_results ← hscan redis key pattern count
    pure (filter_some (map json.parse_struct redis_results))

  unfoldable pub get_hash_field_and_deserialize : String → String → Exec W RedisError T
  unfolding is_empty
  get_hash_field_and_deserialize key field = do
    value_bytes ← get_hash_field redis key field
    (if is_empty value_bytes
        then raise RedisError.not_found
        else lift (ok_or (json.parse_struct value_bytes) json_deserialization_failed))
