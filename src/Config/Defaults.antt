-- ===== src/Config/Defaults.antt =====
-- The values that the configuration has where none is given: crates/router/src/configs/defaults.rs, those of
-- the scheduler in crates/data_models/src/configs/defaults.rs, and of crates/redis_interface/src/types.rs.
use mercado.Prelude.{false, none, true, ℕ, ◌∷◌, [], some, ◌*◌}
use mercado.Prelude.Int.{pos}
use mercado.Config.Settings.{
  Server, Proxy, Database, RedisSettings, Locker, EphemeralConfig, CorsSettings, DrainerSettings,
  ApiKeys, SchedulerSettings, ProducerSettings, ConsumerSettings, KvConfig, QueueStrategy,
}

-- `get_physical` is `num_cpus::get_physical()`.
abbrev pub default_server : (get_physical : ℕ) → Server
default_server get_physical = record {
  port = 8080;
  workers = get_physical;
  host = "localhost";
  request_body_limit = 16 * 1024;
  base_url = "http://localhost:8080";
  shutdown_timeout = 30;
}

abbrev pub default_cors : CorsSettings
default_cors = record {
  origins = "http://localhost:8080" ∷ [];
  allowed_methods = "GET" ∷ "PUT" ∷ "POST" ∷ "DELETE" ∷ [];
  wildcard_origin = false;
  max_age = 30;
}

abbrev pub default_database : Database
default_database = record {
  username = "";
  password = "";
  host = "localhost";
  port = 5432;
  dbname = "";
  pool_size = 5;
  connection_timeout = 10;
  queue_strategy = QueueStrategy.fifo;
  min_idle = none;
  max_lifetime = none;
}

abbrev pub default_proxy : Proxy
default_proxy = record { http_url = none; https_url = none; idle_pool_connection_timeout = some 90 }

abbrev pub default_locker : Locker
default_locker = record {
  host = "localhost";
  host_rs = "localhost";
  mock_locker = true;
  basilisk_host = "localhost";
  locker_signing_key_id = "1";
  locker_enabled = true;
}

abbrev pub default_ephemeral : EphemeralConfig
default_ephemeral = record { validity = pos 1 }

abbrev pub default_drainer : DrainerSettings
default_drainer = record {
  stream_name = "DRAINER_STREAM";
  num_partitions = 64;
  max_read_count = 100;
  shutdown_interval = 1000;
  loop_interval = 100;
}

abbrev pub default_kv : KvConfig
default_kv = record { ttl = 900 }

abbrev pub default_api_keys : ApiKeys
default_api_keys = record { hash_key = "" }

abbrev pub default_producer : ProducerSettings
default_producer = record {
  upper_fetch_limit = pos 0;
  lower_fetch_limit = pos 1800;
  lock_key = "PRODUCER_LOCKING_KEY";
  lock_ttl = pos 160;
  batch_size = 200;
}

abbrev pub default_consumer : ConsumerSettings
default_consumer = record { disabled = false; consumer_group = "SCHEDULER_GROUP" }

abbrev pub default_scheduler : (get_physical : ℕ) → SchedulerSettings
default_scheduler get_physical = record {
  stream = "SCHEDULER_STREAM";
  producer = default_producer;
  consumer = default_consumer;
  graceful_shutdown_interval = 60000;
  loop_interval = 5000;
  server = default_server get_physical;
}

abbrev pub default_redis : RedisSettings
default_redis = record {
  host = "127.0.0.1";
  port = 6379;
  cluster_enabled = false;
  cluster_urls = [];
  use_legacy_version = false;
  pool_size = 5;
  reconnect_max_attempts = 5;
  reconnect_delay = 5;
  default_ttl = 300;
  stream_read_count = 1;
  default_hash_ttl = 900;
  auto_pipeline = true;
  disable_auto_backpressure = false;
  max_in_flight_commands = 5000;
  default_command_timeout = 30;
  max_feed_count = 200;
  unresponsive_timeout = 10;
}
