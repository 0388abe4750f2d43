-- ===== src/Tests/KeyValues.antt =====
-- Writes of the key-value store on the server in memory.
use mercado.Storage.Kv.Visits.{visits-stream_of, stream_of}
use mercado.Storage.Kv.{get_redis_conn, push_to_drainer_stream, shard_key, partition_number}
use mercado.Redis.Hashes.{
  sadd, set_hash_field_if_not_exist, serialize_and_set_hash_field_if_not_exist,
}
use mercado.Redis.Commands.{set_expiry, stream_append_entry}
use mercado.Drainer.Entries.{to_field_value_pairs}
use mercado.Drainer.Streams.{u8_to_text}
use mercado.Tests.IntText.{to_text, ones}
use mercado.Drainer.Index.Cycle.{after}
use mercado.Redis.Json.{Json}
use mercado.Redis.Hashes.{HashPool}
use mercado.Errors.{RedisError, set_add_members_failed}
use mercado.Prelude.Results.{ok, err}
use mercado.Storage.Kv.{KvOperation, KvResult, KvRouterStore, Stored, kv_wrapper}
use mercado.Prelude.Exec.{Exec}
use mercado.Drainer.Streams.{get_drainer_stream_name}
use mercado.Tests.RedisServer.{put}
use mercado.Redis.Replies.{HsetnxReply, FredValue, RedisErrorKind, integer}
use mercado.Prelude.Int.{pos}
use mercado.Prelude.{
  ◌∷◌, [], Option, String, none, ℕ, concat_texts, some, true, ◌*◌, ◌≡◌, refl, ◌≤◌, false, ◌<◌, Bool,
  map, arith,
}
use mercado.Tests.RedisServer.{Server, server_conn, server_store}
use mercado.Tests.Drains.{codec}

-- Fields are keys with the hash before them; a member of a set is one too.
abbrev field_key : String → String → String
field_key key field = concat_texts (key ∷ "." ∷ field ∷ [])

abbrev set_missing : String → String → Option String → Exec Server RedisErrorKind FredValue
set_missing key value none s =
    (ok (integer (pos 1)), record s { keys = put key (some value) s.keys })
set_missing key value (some old) s = (ok (integer (pos 0)), s)

abbrev set_field : String → String → Exec Server RedisErrorKind FredValue
set_field key value s = set_missing key value (s.keys key) s

abbrev is_there : Option String → Bool
is_there none = false
is_there (some value) = true

abbrev hash_pool : HashPool Server
hash_pool = record {
  conn = server_conn;
  hashes = record {
    exists = λ key s. (ok (is_there (s.keys key)), s);
    expire_at = λ key timestamp s. (ok tt, s);
    msetnx = λ pairs s. (ok (integer (pos 0)), s);
    mget = λ keys s. (ok (map s.keys keys), s);
    hset = λ key fields s. (ok tt, s);
    hsetnx = λ key field value. set_field (field_key key field) value;
    hget = λ key field s. (ok (s.keys (field_key key field)), s);
    hscan = λ key pattern count s. ([], s);
    sadd = λ key members. elim members [
      | [] ↦ λ s. (ok (integer (pos 0)), s)
      | m ∷ ms ↦ set_field (field_key key m) ""
    ];
    as_string = λ v. none;
  };
  default_hash_ttl = 900;
}

abbrev router : KvRouterStore Server String
router = record {
  redis_conn = hash_pool;
  is_redis_available = λ s. true;
  codec = codec;
  hash = λ key. 7;
  now = λ s. pos 5;
  drainer_stream_name = "drainer_stream";
  drainer_num_partitions = 4;
  ttl_for_kv = 900;
  request_id = some "r";
}

-- Payments are texts, which are their own JSON, and unique by that text.
abbrev text : Json String
text = record { encode_to_vec = λ s. some s; parse_struct = λ s. some s }

abbrev payments : Stored String
payments = record { json = text; unique_constraints = λ s. s ∷ []; table_name = λ s. "payment" }

abbrev empty : Server
empty = record { keys = λ k. none; streams = λ s. []; table = [] }

abbrev write : String → Exec Server RedisError (KvResult String)
write payment =
    kv_wrapper router payments text (KvOperation.hset_nx "pa_1" payment (record { op = "insert" }))
      "mid_m_pid_p"

-- The same payment twice, and a scan that finds nothing.
wrote : (write "pay" empty).0 ≡ ok (KvResult.hset_nx HsetnxReply.key_set)
unfolding kv_wrapper get_redis_conn sadd serialize_and_set_hash_field_if_not_exist
    set_hash_field_if_not_exist set_expiry push_to_drainer_stream to_field_value_pairs
    stream_append_entry shard_key u8_to_text partition_number to_text ones
wrote = refl

pushed :
    (write "pay" empty).1.streams "{shard_3}_drainer_stream"
    ≡ (
      "1-0",
      ("typed_sql", "insert")
          ∷ ("global_id", "mid_m_pid_p")
          ∷ ("request_id", "r")
          ∷ ("pushed_at", "+11111")
          ∷ [],
    )
      ∷ []
unfolding kv_wrapper get_redis_conn sadd serialize_and_set_hash_field_if_not_exist
    set_hash_field_if_not_exist set_expiry push_to_drainer_stream to_field_value_pairs
    stream_append_entry shard_key u8_to_text partition_number to_text ones
pushed = refl

refused : (write "pay" (write "pay" empty).1).0 ≡ err set_add_members_failed
unfolding kv_wrapper get_redis_conn sadd serialize_and_set_hash_field_if_not_exist
    set_hash_field_if_not_exist set_expiry push_to_drainer_stream to_field_value_pairs
    stream_append_entry shard_key u8_to_text partition_number to_text ones
refused = refl

visits-stream_of_example :
    (k : ℕ) × (2 * 4 ≤ k)
    × (k < 3 * 4)
    × (get_drainer_stream_name server_store (after 4 1 k).0 ≡ stream_of router "mid_m_pid_p")
visits-stream_of_example =
    visits-stream_of router server_store refl "mid_m_pid_p" 1 2 (omega arith) (omega arith)
