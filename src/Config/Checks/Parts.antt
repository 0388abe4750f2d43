-- ===== src/Config/Checks/Parts.antt =====
-- The parts of the configuration: what their checks come to.
use mercado.Config.Checks.Leaves.{
  HasText, IsOk, then_iff, when_iff, if_iff, key_iff, positive_iff, text_iff, unless_iff,
  filled_iff, nil_iff, workers_iff, timeout_iff,
}
use mercado.Prelude.{
  Bool, Option, ◌<◌, ◌≡◌, ◌≢◌, false, true, ◌↔◌, [], if◌then◌else◌, none, refl, ◌≤◌,
}
use mercado.Config.Settings.{
  ApiKeys, AwsKmsConfig, CorsSettings, Database, DrainerSettings, HashiCorpVaultConfig,
  LockSettings, Locker, LogFile, RedisSettings, Secrets, SecretsManagementConfig,
}
use mercado.Config.Checks.{
  validate_api_keys, validate_aws_kms, validate_cors, validate_database, validate_drainer,
  validate_lock, validate_locker, validate_log_file, validate_optional_scheduler, validate_producer,
  validate_redis, validate_scheduler, validate_secrets, validate_secrets_management,
  validate_server, validate_vault, ApplicationError, ProducerSettings, SchedulerSettings, Server,
  hashi_corp_vault, validate_enabled_log_file, false, some, true, [],
}
use mercado.Prelude.Results.{Result, ok}

abbrev pub ValidServer : Server → Type 0
ValidServer s = HasText s.host × (0 < s.workers)

pub server_iff : (s : Server) → IsOk (validate_server s) ↔ ValidServer s
unfolding validate_server
server_iff s = then_iff _ _ (when_iff _ _ (text_iff s.host)) (when_iff _ _ (workers_iff s.workers))

abbrev pub ValidDatabase : Database → Type 0
ValidDatabase s = HasText s.host × (HasText s.dbname × (HasText s.username × HasText s.password))

pub database_iff : (s : Database) → IsOk (validate_database s) ↔ ValidDatabase s
unfolding validate_database
database_iff s = then_iff _ _ (when_iff _ _ (text_iff s.host)) (
    then_iff _ _ (when_iff _ _ (text_iff s.dbname))
      (then_iff _ _ (when_iff _ _ (text_iff s.username)) (when_iff _ _ (text_iff s.password))))

abbrev pub ValidRedisSettings : RedisSettings → Type 0
ValidRedisSettings s =
    HasText s.host
    × ((s.cluster_enabled ≡ true → s.cluster_urls ≢ [])
        × (s.unresponsive_timeout ≤ s.default_command_timeout))

pub redis_iff : (s : RedisSettings) → IsOk (validate_redis s) ↔ ValidRedisSettings s
unfolding validate_redis
redis_iff s = then_iff _ _ (when_iff _ _ (text_iff s.host)) (
    then_iff _ _ (when_iff _ _ (if_iff s.cluster_enabled _ (filled_iff s.cluster_urls)))
      (when_iff _ _ (timeout_iff s.default_command_timeout s.unresponsive_timeout)))

abbrev pub ValidSecrets : Secrets → Type 0
ValidSecrets s = HasText s.jwt_secret × (HasText s.admin_api_key × HasText s.master_enc_key)

pub secrets_iff : (s : Secrets) → IsOk (validate_secrets s) ↔ ValidSecrets s
unfolding validate_secrets
secrets_iff s = then_iff _ _ (when_iff _ _ (text_iff s.jwt_secret)) (
    then_iff _ _ (when_iff _ _ (text_iff s.admin_api_key))
      (when_iff _ _ (text_iff s.master_enc_key)))

abbrev pub ValidLocker : Locker → Type 0
ValidLocker s =
    (s.mock_locker ≡ false → HasText s.host) × (s.mock_locker ≡ false → HasText s.basilisk_host)

pub locker_iff : (s : Locker) → IsOk (validate_locker s) ↔ ValidLocker s
unfolding validate_locker
locker_iff s =
    then_iff _ _ (when_iff _ _ (unless_iff s.mock_locker _ (text_iff s.host)))
      (when_iff _ _ (unless_iff s.mock_locker _ (text_iff s.basilisk_host)))

abbrev pub ValidCorsSettings : CorsSettings → Type 0
ValidCorsSettings s =
    (s.wildcard_origin ≡ true → s.origins ≡ []) × (s.wildcard_origin ≡ false → s.origins ≢ [])

pub cors_iff : (s : CorsSettings) → IsOk (validate_cors s) ↔ ValidCorsSettings s
unfolding validate_cors
cors_iff s =
    then_iff _ _ (when_iff _ _ (if_iff s.wildcard_origin _ (nil_iff s.origins)))
      (when_iff _ _ (unless_iff s.wildcard_origin _ (filled_iff s.origins)))

abbrev pub ValidDrainerSettings : DrainerSettings → Type 0
ValidDrainerSettings s = HasText s.stream_name

pub drainer_iff : (s : DrainerSettings) → IsOk (validate_drainer s) ↔ ValidDrainerSettings s
unfolding validate_drainer
drainer_iff s = when_iff _ _ (text_iff s.stream_name)

abbrev pub ValidApiKeys : ApiKeys → Type 0
ValidApiKeys s = s.hash_key ≢ ""

pub api_keys_iff : (s : ApiKeys) → IsOk (validate_api_keys s) ↔ ValidApiKeys s
unfolding validate_api_keys
api_keys_iff s = when_iff _ _ (key_iff s.hash_key)

abbrev pub ValidProducerSettings : ProducerSettings → Type 0
ValidProducerSettings s = HasText s.lock_key

pub producer_iff : (s : ProducerSettings) → IsOk (validate_producer s) ↔ ValidProducerSettings s
unfolding validate_producer
producer_iff s = when_iff _ _ (text_iff s.lock_key)

abbrev pub ValidSchedulerSettings : SchedulerSettings → Type 0
ValidSchedulerSettings s =
    HasText s.stream
    × (HasText s.consumer.consumer_group
        × (ValidProducerSettings s.producer × ValidServer s.server))

pub scheduler_iff : (s : SchedulerSettings) → IsOk (validate_scheduler s) ↔ ValidSchedulerSettings s
unfolding validate_scheduler
scheduler_iff s = then_iff _ _ (when_iff _ _ (text_iff s.stream)) (
    then_iff _ _ (when_iff _ _ (text_iff s.consumer.consumer_group))
      (then_iff _ _ (producer_iff s.producer) (server_iff s.server)))

abbrev pub ValidLockSettings : LockSettings → Type 0
ValidLockSettings s =
    (0 < s.redis_lock_expiry_seconds)
    × ((0 < s.delay_between_retries_in_milliseconds) × (0 < s.lock_retries))

pub lock_iff : (s : LockSettings) → IsOk (validate_lock s) ↔ ValidLockSettings s
unfolding validate_lock
lock_iff s = then_iff _ _ (when_iff _ _ (positive_iff s.redis_lock_expiry_seconds)) (
    then_iff _ _ (when_iff _ _ (positive_iff s.delay_between_retries_in_milliseconds))
      (when_iff _ _ (positive_iff s.lock_retries)))

abbrev pub ValidAwsKmsConfig : AwsKmsConfig → Type 0
ValidAwsKmsConfig s = HasText s.key_id × HasText s.region

pub aws_kms_iff : (s : AwsKmsConfig) → IsOk (validate_aws_kms s) ↔ ValidAwsKmsConfig s
unfolding validate_aws_kms
aws_kms_iff s = then_iff _ _ (when_iff _ _ (text_iff s.key_id)) (when_iff _ _ (text_iff s.region))

abbrev pub ValidHashiCorpVaultConfig : HashiCorpVaultConfig → Type 0
ValidHashiCorpVaultConfig s = HasText s.url × HasText s.token

pub vault_iff : (s : HashiCorpVaultConfig) → IsOk (validate_vault s) ↔ ValidHashiCorpVaultConfig s
unfolding validate_vault
vault_iff s = then_iff _ _ (when_iff _ _ (text_iff s.url)) (when_iff _ _ (text_iff s.token))

abbrev pub ValidLogFile : LogFile → Type 0
ValidLogFile s = s.enabled ≡ true → HasText s.file_name × HasText s.path

pub enabled_iff :
    {P : Type 0} (b : Bool) (r : Result ApplicationError (Unit {0}))
    → (IsOk r ↔ P)
    → IsOk (if b then r else ok tt) ↔ (b ≡ true → P)
enabled_iff true r h = ((λ e _. h.0 e), λ p. h.1 (p refl))
enabled_iff false r h = ((λ e e'. cc), λ p. refl)

pub log_file_iff : (s : LogFile) → IsOk (validate_log_file s) ↔ ValidLogFile s
unfolding validate_log_file validate_enabled_log_file
log_file_iff s =
    enabled_iff s.enabled _
      (then_iff _ _ (when_iff _ _ (text_iff s.file_name)) (when_iff _ _ (text_iff s.path)))

abbrev pub ValidSecretsManagement : SecretsManagementConfig → Type 0
ValidSecretsManagement (SecretsManagementConfig.aws_kms c) = ValidAwsKmsConfig c
ValidSecretsManagement (hashi_corp_vault c) = ValidHashiCorpVaultConfig c
ValidSecretsManagement SecretsManagementConfig.no_encryption = Unit

pub secrets_management_iff :
    (c : SecretsManagementConfig) → IsOk (validate_secrets_management c) ↔ ValidSecretsManagement c
unfolding validate_secrets_management
secrets_management_iff (SecretsManagementConfig.aws_kms c) = aws_kms_iff c
secrets_management_iff (hashi_corp_vault c) = vault_iff c
secrets_management_iff SecretsManagementConfig.no_encryption = ((λ e. tt), λ u. refl)

abbrev pub ValidOptionalScheduler : Option SchedulerSettings → Type 0
ValidOptionalScheduler none = Unit
ValidOptionalScheduler (some s) = ValidSchedulerSettings s

pub optional_scheduler_iff :
    (o : Option SchedulerSettings) → IsOk (validate_optional_scheduler o) ↔ ValidOptionalScheduler o
unfolding validate_optional_scheduler
optional_scheduler_iff none = ((λ e. tt), λ u. refl)
optional_scheduler_iff (some s) = scheduler_iff s
