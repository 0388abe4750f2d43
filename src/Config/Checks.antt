-- ===== src/Config/Checks.antt =====
-- The checks of the configuration: crates/router/src/configs/validations.rs, those of the scheduler in
-- crates/data_models/src/configs/validations.rs, and `Settings::validate` of the router.
pub mod Leaves
pub mod Parts
pub mod Valid
use mercado.Config.Text.{when, is_default_or_empty, is_empty_text, u32_is_default_or_empty}
use mercado.Config.Settings.{
  ApiKeys, AwsKmsConfig, CorsSettings, Database, DrainerSettings, HashiCorpVaultConfig,
  LockSettings, Locker, LogFile, RedisSettings, Secrets, SecretsManagementConfig, Settings,
  ProducerSettings, SchedulerSettings, Server, hashi_corp_vault,
}
use mercado.Prelude.{
  List, Option, String, Bool, if◌then◌else◌, not, some, true, ◌&&◌, none, ◌==◌, ◌∷◌, false, ltb, [],
}
use mercado.Prelude.Results.{Result, ok, err, ◌>>=◌, ◌>>◌, map_err}
use mercado.Errors.{RedisError, invalid_configuration}

-- `ApplicationError` of crates/data_models/src/errors.rs; what the other variants carry is left out.
pub data ApplicationError : Type 0 where
  configuration_error : ApplicationError
  invalid_configuration_value_error : String → ApplicationError
  metrics_error io_error api_client_error : ApplicationError

unfoldable pub validate_secrets : Secrets → Result ApplicationError (Unit {0})
validate_secrets s = do
  when (is_default_or_empty s.jwt_secret)
      (err (invalid_configuration_value_error "JWT secret must not be empty"))
  when (is_default_or_empty s.admin_api_key)
      (err (invalid_configuration_value_error "admin API key must not be empty"))
  when (is_default_or_empty s.master_enc_key)
      (err (invalid_configuration_value_error "Master encryption key must not be empty"))

unfoldable pub validate_locker : Locker → Result ApplicationError (Unit {0})
validate_locker s = do
  when (not s.mock_locker && is_default_or_empty s.host) (
      err (
        invalid_configuration_value_error
          "locker host must not be empty when mock locker is disabled"))
  when (not s.mock_locker && is_default_or_empty s.basilisk_host) (
      err (
        invalid_configuration_value_error
          "basilisk host must not be empty when mock locker is disabled"))

unfoldable pub validate_server : Server → Result ApplicationError (Unit {0})
validate_server s = do
  when (is_default_or_empty s.host)
      (err (invalid_configuration_value_error "server host must not be empty"))
  when (s.workers == 0)
      (err (invalid_configuration_value_error "number of workers must be greater than 0"))

unfoldable pub validate_database : Database → Result ApplicationError (Unit {0})
validate_database s = do
  when (is_default_or_empty s.host)
      (err (invalid_configuration_value_error "database host must not be empty"))
  when (is_default_or_empty s.dbname)
      (err (invalid_configuration_value_error "database name must not be empty"))
  when (is_default_or_empty s.username)
      (err (invalid_configuration_value_error "database user username must not be empty"))
  when (is_default_or_empty s.password)
      (err (invalid_configuration_value_error "database user password must not be empty"))

-- `HashSet::is_empty_text`
abbrev pub is_nil : {A : Type 0} → List A → Bool
is_nil [] = true
is_nil (x ∷ xs) = false

unfoldable pub validate_cors : CorsSettings → Result ApplicationError (Unit {0})
validate_cors s = do
  when (s.wildcard_origin && not (is_nil s.origins)) (
      err (
        invalid_configuration_value_error
          "Allowed Origins must be empty when wildcard origin is true"))
  when (not s.wildcard_origin && is_nil s.origins) (
      err (
        invalid_configuration_value_error
          "Allowed origins must not be empty. Please either enable wildcard origin or provide Allowed Origin"))

unfoldable pub validate_drainer : DrainerSettings → Result ApplicationError (Unit {0})
validate_drainer s = do
  when (is_default_or_empty s.stream_name)
      (err (invalid_configuration_value_error "drainer stream name must not be empty"))

unfoldable pub validate_api_keys : ApiKeys → Result ApplicationError (Unit {0})
validate_api_keys s = do
  when (is_empty_text s.hash_key)
      (err (invalid_configuration_value_error "API key hashing key must not be empty"))

unfoldable pub validate_producer : ProducerSettings → Result ApplicationError (Unit {0})
validate_producer s = do
  when (is_default_or_empty s.lock_key)
      (err (invalid_configuration_value_error "producer lock key must not be empty"))

unfoldable pub validate_scheduler : SchedulerSettings → Result ApplicationError (Unit {0})
validate_scheduler s = do
  when (is_default_or_empty s.stream)
      (err (invalid_configuration_value_error "scheduler stream must not be empty"))
  when (is_default_or_empty s.consumer.consumer_group)
      (err (invalid_configuration_value_error "scheduler consumer group must not be empty"))
  validate_producer s.producer
  validate_server s.server

unfoldable pub validate_lock : LockSettings → Result ApplicationError (Unit {0})
validate_lock s = do
  when (u32_is_default_or_empty s.redis_lock_expiry_seconds)
      (err (invalid_configuration_value_error "redis_lock_expiry_seconds must not be empty or 0"))
  when (u32_is_default_or_empty s.delay_between_retries_in_milliseconds) (
      err (
        invalid_configuration_value_error
          "delay_between_retries_in_milliseconds must not be empty or 0"))
  when (u32_is_default_or_empty s.lock_retries)
      (err (invalid_configuration_value_error "lock_retries must not be empty or 0"))

-- `RedisSettings::validate` of crates/redis_interface/src/types.rs
unfoldable pub validate_redis : RedisSettings → Result RedisError (Unit {0})
validate_redis s = do
  when (is_default_or_empty s.host) (err (invalid_configuration "Redis `host` must be specified"))
  when (s.cluster_enabled && is_nil s.cluster_urls) (
      err (
        invalid_configuration
          "Redis `cluster_urls` must be specified if `cluster_enabled` is `true`"))
  when (ltb s.default_command_timeout s.unresponsive_timeout) (
      err (invalid_configuration "Unresponsive timeout cannot be greater than the command timeout"))

-- The block on the log file.
validate_enabled_log_file : LogFile → Result ApplicationError (Unit {0})
validate_enabled_log_file s = do
  when (is_default_or_empty s.file_name)
      (err (invalid_configuration_value_error "log file name must not be empty"))
  when (is_default_or_empty s.path)
      (err (invalid_configuration_value_error "log directory path must not be empty"))

unfoldable pub validate_log_file : LogFile → Result ApplicationError (Unit {0})
unfolding validate_enabled_log_file
validate_log_file s = if s.enabled then validate_enabled_log_file s else ok tt

-- crates/external_services/src/managers/secrets_management.rs, with the checks of the two clients.
unfoldable pub validate_aws_kms : AwsKmsConfig → Result String (Unit {0})
validate_aws_kms s = do
  when (is_default_or_empty s.key_id) (err "KMS AWS key ID must not be empty")
  when (is_default_or_empty s.region) (err "KMS AWS region must not be empty")

unfoldable pub validate_vault : HashiCorpVaultConfig → Result String (Unit {0})
validate_vault s = do
  when (is_default_or_empty s.url) (err "HashiCorp vault url must not be empty")
  when (is_default_or_empty s.token) (err "HashiCorp vault token must not be empty")

unfoldable pub validate_secrets_management : SecretsManagementConfig → Result String (Unit {0})
validate_secrets_management (SecretsManagementConfig.aws_kms c) = validate_aws_kms c
validate_secrets_management (hashi_corp_vault c) = validate_vault c
validate_secrets_management SecretsManagementConfig.no_encryption = ok tt

-- `map` and `transpose` of the standard library.
unfoldable pub validate_optional_scheduler :
    Option SchedulerSettings → Result ApplicationError (Unit {0})
validate_optional_scheduler none = ok tt
validate_optional_scheduler (some s) = validate_scheduler s

unfoldable pub validate : Settings → Result ApplicationError (Unit {0})
validate s = do
  validate_server s.server
  validate_database s.master_database
  validate_database s.replica_database
  map_err (λ _. invalid_configuration_value_error "Redis configuration") (validate_redis s.redis)
  validate_log_file s.log_file
  validate_secrets s.secrets
  validate_locker s.locker
  validate_cors s.cors
  validate_optional_scheduler s.scheduler
  validate_drainer s.drainer
  validate_api_keys s.api_keys
  validate_lock s.lock_settings
  map_err invalid_configuration_value_error (validate_secrets_management s.secrets_management)
