-- ===== src/Config/DrainerChecks.antt =====
-- The configuration of the drainer: crates/drainer/src/settings.rs.
use mercado.Prelude.{String, ℕ}
use mercado.Prelude.Results.{Result, ok, err, ◌>>◌, map_err}
use mercado.Config.Settings.{
  RedisSettings, LogFile, DrainerSettings, EncryptionManagementConfig, SecretsManagementConfig,
}
use mercado.Config.Checks.{validate_redis, validate_secrets_management, validate_aws_kms}
use mercado.Config.Text.{is_default_or_empty, when}
use mercado.Errors.{DrainerError}

pub record DrainerServer : Type 0 where
  pub port : ℕ
  pub workers : ℕ
  pub host : String

pub record DrainerDatabase : Type 0 where
  pub username : String
  pub password : String
  pub host : String
  pub port : ℕ
  pub dbname : String
  pub pool_size : ℕ
  pub connection_timeout : ℕ

-- `Settings`, of the log the part on files.
pub record DrainerConfig : Type 0 where
  pub server : DrainerServer
  pub master_database : DrainerDatabase
  pub redis : RedisSettings
  pub log_file : LogFile
  pub drainer : DrainerSettings
  pub encryption_management : EncryptionManagementConfig
  pub secrets_management : SecretsManagementConfig

abbrev pub default_drainer_database : DrainerDatabase
default_drainer_database = record {
  username = "";
  password = "";
  host = "localhost";
  port = 5432;
  dbname = "";
  pool_size = 5;
  connection_timeout = 10;
}

abbrev pub default_drainer_server : DrainerServer
default_drainer_server = record { host = "127.0.0.1"; port = 8080; workers = 1 }

unfoldable pub validate_drainer_server : DrainerServer → Result DrainerError (Unit {0})
validate_drainer_server s =
    when (is_default_or_empty s.host)
      (err (DrainerError.config_parsing_error "server host must not be empty"))

unfoldable pub validate_drainer_database : DrainerDatabase → Result DrainerError (Unit {0})
validate_drainer_database s = do
  when (is_default_or_empty s.host)
      (err (DrainerError.config_parsing_error "database host must not be empty"))
  when (is_default_or_empty s.dbname)
      (err (DrainerError.config_parsing_error "database name must not be empty"))
  when (is_default_or_empty s.username)
      (err (DrainerError.config_parsing_error "database user username must not be empty"))
  when (is_default_or_empty s.password)
      (err (DrainerError.config_parsing_error "database user password must not be empty"))

unfoldable pub validate_drainer_settings : DrainerSettings → Result DrainerError (Unit {0})
validate_drainer_settings s =
    when (is_default_or_empty s.stream_name)
      (err (DrainerError.config_parsing_error "drainer stream name must not be empty"))

-- crates/external_services/src/managers/encryption_management.rs
unfoldable pub validate_encryption_management :
    EncryptionManagementConfig → Result String (Unit {0})
validate_encryption_management (EncryptionManagementConfig.aws_kms c) = validate_aws_kms c
validate_encryption_management EncryptionManagementConfig.no_encryption = ok tt

unfoldable pub validate_drainer_config : DrainerConfig → Result DrainerError (Unit {0})
validate_drainer_config s = do
  validate_drainer_server s.server
  validate_drainer_database s.master_database
  map_err (λ _. DrainerError.config_parsing_error "invalid Redis configuration")
      (validate_redis s.redis)
  validate_drainer_settings s.drainer
  map_err (λ _. DrainerError.config_parsing_error "invalid secrets management configuration")
      (validate_secrets_management s.secrets_management)
  map_err (λ _. DrainerError.config_parsing_error "invalid encryption management configuration")
      (validate_encryption_management s.encryption_management)
