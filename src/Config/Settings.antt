-- ===== src/Config/Settings.antt =====
-- The values of the configuration: crates/router/src/configs/settings.rs, and those of the scheduler in
-- crates/data_models/src/configs/settings.rs. A container of a secret is the value in it. Numbers are unsigned
-- unless they are ℤ, and of the width of the source where the parser reads them.
use mercado.Prelude.{Bool, List, Option, String, ℕ}
use mercado.Prelude.Int.{ℤ}
use mercado.ApiKeys.Plaintext.{Env}

pub data QueueStrategy : Type 0 where
  fifo lifo : QueueStrategy

-- The server of the router, and of the scheduler.
pub record Server : Type 0 where
  pub port : ℕ
  pub workers : ℕ
  pub host : String
  pub request_body_limit : ℕ
  pub base_url : String
  pub shutdown_timeout : ℕ

pub record Proxy : Type 0 where
  pub http_url : Option String
  pub https_url : Option String
  pub idle_pool_connection_timeout : Option ℕ

pub record Database : Type 0 where
  pub username : String
  pub password : String
  pub host : String
  pub port : ℕ
  pub dbname : String
  pub pool_size : ℕ
  pub connection_timeout : ℕ
  pub queue_strategy : QueueStrategy
  pub min_idle : Option ℕ
  pub max_lifetime : Option ℕ

-- Of crates/redis_interface/src/types.rs.
pub record RedisSettings : Type 0 where
  pub host : String
  pub port : ℕ
  pub cluster_enabled : Bool
  pub cluster_urls : List String
  pub use_legacy_version : Bool
  pub pool_size : ℕ
  pub reconnect_max_attempts : ℕ
  pub reconnect_delay : ℕ
  pub default_ttl : ℕ
  pub default_hash_ttl : ℕ
  pub stream_read_count : ℕ
  pub auto_pipeline : Bool
  pub disable_auto_backpressure : Bool
  pub max_in_flight_commands : ℕ
  pub default_command_timeout : ℕ
  pub max_feed_count : ℕ
  pub unresponsive_timeout : ℕ

-- Of crates/router_env/src/logger/config.rs, less the level.
pub record LogFile : Type 0 where
  pub enabled : Bool
  pub path : String
  pub file_name : String
  pub filtering_directive : Option String

-- Secrets are the texts that they hide.
pub record Secrets : Type 0 where
  pub jwt_secret : String
  pub admin_api_key : String
  pub recon_admin_api_key : String
  pub master_enc_key : String

pub record Locker : Type 0 where
  pub host : String
  pub host_rs : String
  pub mock_locker : Bool
  pub basilisk_host : String
  pub locker_signing_key_id : String
  pub locker_enabled : Bool

pub record EphemeralConfig : Type 0 where
  pub validity : ℤ

pub record Jwekey : Type 0 where
  pub vault_encryption_key : String
  pub rust_locker_encryption_key : String
  pub vault_private_key : String
  pub tunnel_private_key : String

-- Sets are lists.
pub record CorsSettings : Type 0 where
  pub origins : List String
  pub wildcard_origin : Bool
  pub max_age : ℕ
  pub allowed_methods : List String

pub record DrainerSettings : Type 0 where
  pub stream_name : String
  pub num_partitions : ℕ
  pub max_read_count : ℕ
  pub shutdown_interval : ℕ
  pub loop_interval : ℕ

pub record WebhookIgnoreErrorSettings : Type 0 where
  pub event_type : Option Bool
  pub payment_not_found : Option Bool

pub record WebhooksSettings : Type 0 where
  pub outgoing_enabled : Bool
  pub ignore_error : WebhookIgnoreErrorSettings

pub record ApiKeys : Type 0 where
  pub hash_key : String

pub record ProducerSettings : Type 0 where
  pub upper_fetch_limit : ℤ
  pub lower_fetch_limit : ℤ
  pub lock_key : String
  pub lock_ttl : ℤ
  pub batch_size : ℕ

pub record ConsumerSettings : Type 0 where
  pub disabled : Bool
  pub consumer_group : String

pub record SchedulerSettings : Type 0 where
  pub stream : String
  pub producer : ProducerSettings
  pub consumer : ConsumerSettings
  pub loop_interval : ℕ
  pub graceful_shutdown_interval : ℕ
  pub server : Server

pub record LockSettings : Type 0 where
  pub redis_lock_expiry_seconds : ℕ
  pub delay_between_retries_in_milliseconds : ℕ
  pub lock_retries : ℕ

pub record KvConfig : Type 0 where
  pub ttl : ℕ

-- Of crates/external_services/src/aws_kms/core.rs.
pub record AwsKmsConfig : Type 0 where
  pub key_id : String
  pub region : String

-- Of crates/external_services/src/hashicorp_vault/core.rs.
pub record HashiCorpVaultConfig : Type 0 where
  pub url : String
  pub token : String

-- The features aws_kms and hashicorp-vault bring the first two.
pub data SecretsManagementConfig : Type 0 where
  aws_kms : AwsKmsConfig → SecretsManagementConfig
  hashi_corp_vault : HashiCorpVaultConfig → SecretsManagementConfig
  no_encryption : SecretsManagementConfig

pub data EncryptionManagementConfig : Type 0 where
  aws_kms : AwsKmsConfig → EncryptionManagementConfig
  no_encryption : EncryptionManagementConfig

-- crates/router/src/events.rs
pub data EventsConfig : Type 0 where
  kafka logs : EventsConfig

-- Of the log, the part on files.
pub record Settings : Type 0 where
  pub server : Server
  pub proxy : Proxy
  pub env : Env
  pub master_database : Database
  pub replica_database : Database
  pub redis : RedisSettings
  pub log_file : LogFile
  pub secrets : Secrets
  pub locker : Locker
  pub eph_key : EphemeralConfig
  pub scheduler : Option SchedulerSettings
  pub drainer : DrainerSettings
  pub jwekey : Jwekey
  pub webhooks : WebhooksSettings
  pub api_keys : ApiKeys
  pub encryption_management : EncryptionManagementConfig
  pub secrets_management : SecretsManagementConfig
  pub cors : CorsSettings
  pub lock_settings : LockSettings
  pub kv_config : KvConfig
  pub events : EventsConfig
  pub unmasked_headers : List String
