-- ===== src/Tests/Caches.antt =====
-- A message of the invalidation channel whose key holds commas, and a lookup after a redaction: the
-- caches are the Redis server of Tests/RedisServer and a map in memory of texts.
use mercado.Redis.Json.{get_and_deserialize_key, serialize_and_set_key}
use mercado.Errors.{StorageError}
use mercado.Storage.Cache.Coherence.{CacheLaws, redact_cache-then_fetches}
use mercado.Storage.Cache.{
  Cacheable, Moka, redact_cache, get_or_populate_in_memory, get_val, populate_in_memory,
  get_or_populate_redis, or_populate, get_data_set_redis,
}
use mercado.Redis.Laws.{KeyLaws}
use mercado.Redis.Commands.{RedisConnectionPool, delete_key, get_key, set_key}
use mercado.Redis.Fred.{Fred}
use mercado.Prelude.Exec.{Exec, pure}
use mercado.Tests.RedisServer.{
  Server, put, put-here, server_pool, set_absent-IsSetIfAbsent, put-elsewhere,
}
use mercado.Redis.Replies.{FredValue}
use mercado.Prelude.Results.{ok, ok-injective, Result, err}
use mercado.Prelude.{◌≡◌, Option, String, refl, some, none, [], sym, inl, List, ◌∷◌}
use mercado.Storage.Kind.{accounts, kind_to_value, kind_from_value}
use mercado.Storage.Kind.RoundTrip.{kind_from-to_value}

unfoldable string_text : FredValue → Option String
string_text (FredValue.string s) = some s
string_text _ = none

kind_from-to_value_example :
    kind_from_value string_text (kind_to_value (accounts "m1,key,2")) ≡ ok (accounts "m1,key,2")
unfolding string_text
kind_from-to_value_example = kind_from-to_value string_text (λ s. refl) (accounts "m1,key,2")

abbrev World : Type 0
World = Server × (String → Option String)

abbrev beside : {E A : Type 0} → Exec Server E A → Exec World E A
beside m w = let (r, s) = m w.0 in (r, (s, w.1))

abbrev world_pool : Fred World
world_pool = record {
  set = λ key v seconds nx. beside (server_pool.set key v seconds nx);
  get = λ key. beside (server_pool.get key);
  del = λ key. beside (server_pool.del key);
  expire = λ key seconds. beside (server_pool.expire key seconds);
  xadd = λ stream id fields. beside (server_pool.xadd stream id fields);
  xdel = λ stream ids. beside (server_pool.xdel stream ids);
  xtrim = λ stream kind trim id. beside (server_pool.xtrim stream kind trim id);
  xack = λ stream group ids. beside (server_pool.xack stream group ids);
  xread_map = λ count stream id. beside (server_pool.xread_map count stream id);
  xreadgroup_map = λ group consumer count stream id.
      beside (server_pool.xreadgroup_map group consumer count stream id);
  xgroup_create = λ stream group id. beside (server_pool.xgroup_create stream group id);
}

abbrev world_conn : RedisConnectionPool World
world_conn = record { pool = world_pool; default_ttl = 300; default_stream_read_count = 1 }

unfoldable world_keys : KeyLaws world_pool
world_keys = record {
  value = λ w. w.0.keys;
  set_if_absent = λ key v seconds w. set_absent-IsSetIfAbsent key v (w.0.keys key) w.0 refl;
  expire_keeps = λ key seconds w k h. refl;
  delete = λ key w. (refl, put-here key none w.0.keys, put-elsewhere key none w.0.keys);
}

abbrev memory : Moka World String
memory = record {
  get = λ key w. (w.1 key, w);
  insert = λ key v w. (w.0, put key (some v) w.1);
  invalidate = λ key w. (w.0, put key none w.1);
}

abbrev texts : Cacheable String String
texts = record {
  json = record { encode_to_vec = some; parse_struct = some };
  as_any = λ s. s;
  downcast_ref = some;
}

unfoldable memory_laws : CacheLaws world_pool memory world_keys
unfolding world_keys
memory_laws = record {
  cached = λ w. w.1;
  get_missing = λ key w h. h;
  get_keeps = λ key w k. refl;
  del_keeps = λ key w k h. h;
  invalidates = λ key w. put-here key none w.1;
  get_value = λ key w reply h. sym (ok-injective h);
}

-- Both caches and the database hold an old text, and the database is given a new one.
abbrev stale : World
stale = (
  record { keys = λ key. some "old"; streams = λ stream. []; table = "old" ∷ [] },
  λ key. some "old",
)

abbrev write_new : Exec World StorageError (Unit {0})
write_new w = (ok tt, (record w.0 { table = "new" ∷ [] }, w.1))

first_row : List String → Result StorageError String
first_row [] = err (StorageError.value_not_found "row")
first_row (row ∷ rows) = ok row

unfoldable read_row : Exec World StorageError String
unfolding first_row
read_row w = (first_row w.0.table, w)

redact_cache-then_fetches_example :
    let w1 = (redact_cache (pure world_conn) "merchant_1" write_new (some memory) stale).1 in
    (read_row (world_pool.get "merchant_1" (memory.get "merchant_1" w1).1).1).0 ≡ ok "new"
unfolding redact_cache get_or_populate_in_memory read_row delete_key get_val populate_in_memory
    get_or_populate_redis get_and_deserialize_key or_populate get_data_set_redis
    serialize_and_set_key get_key set_key
redact_cache-then_fetches_example =
    redact_cache-then_fetches texts world_conn (pure world_conn) (λ w. inl refl) memory world_keys
      memory_laws "merchant_1" write_new read_row stale tt "new" refl refl
