-- ===== src/Tests/Configs.antt =====
-- Configurations that are read and checked.
use mercado.Config.Text.{is_empty_text, when, is_default_or_empty, u32_is_default_or_empty}
use mercado.Config.Defaults.{
  default_database, default_server, default_proxy, default_redis, default_locker, default_ephemeral,
  default_scheduler, default_drainer, default_cors, default_kv,
}
use mercado.Config.Text.{trim, trim_start, trim_end, is_whitespace, put_before}
use mercado.Prelude.{str_eq, true, ◌≡◌, arith, eq_iff, refl, ◌↔◌, false, none, some, ◌∷◌, []}
use mercado.Prelude.Results.{ok, err}
use mercado.Config.Settings.{
  Settings, EncryptionManagementConfig, SecretsManagementConfig, EventsConfig, Database,
}
use mercado.Config.Hashsets.{
  deserialize_hashset_inner, deserialize_optional_hashset, split_commas, insert,
}
use mercado.Config.Hashsets.Members.{deserialize_hashset_inner-IsRead, IsRead}
use mercado.Config.Locks.{lock_settings}
use mercado.Config.Locks.Retries.{lock_settings-IsLock, IsLock}
use mercado.Config.Checks.{
  validate, invalid_configuration_value_error, validate_server, validate_database, validate_redis,
  validate_log_file, validate_secrets, validate_locker, validate_api_keys, validate_cors,
  validate_drainer, validate_lock, validate_optional_scheduler, validate_producer,
  validate_scheduler, validate_secrets_management,
}
use mercado.Config.Checks.Valid.{validate_iff, ValidSettings}
use mercado.ApiKeys.Plaintext.{Env}

-- The methods that CORS allows, with white space and a duplicate; and an empty text, which is one part.
methods :
    deserialize_hashset_inner (λ s. ok s) "String" str_eq " GET,PUT , GET" ≡ ok ("GET" ∷ "PUT" ∷ [])
unfolding deserialize_hashset_inner split_commas trim trim_start trim_end is_whitespace insert
    put_before
methods = refl

empty_text :
    deserialize_optional_hashset (λ s. ok s) "String" str_eq (some " ") ≡ ok (some ("" ∷ []))
unfolding deserialize_optional_hashset deserialize_hashset_inner split_commas trim trim_start
    trim_end is_whitespace insert put_before
empty_text = refl

deserialize_hashset_inner-IsRead_example :
    IsRead
      (λ s. ok s)
      "String"
      str_eq
      eq_iff
      (split_commas (trim "GET,PUT"))
      (deserialize_hashset_inner (λ s. ok s) "String" str_eq "GET,PUT")
deserialize_hashset_inner-IsRead_example =
    deserialize_hashset_inner-IsRead (λ s. ok s) "String" str_eq eq_iff "GET,PUT"

lock_settings-IsLock_example : IsLock 180 500 (lock_settings true 180 500)
lock_settings-IsLock_example = lock_settings-IsLock true 180 500 (omega arith)

-- The defaults, with what they leave empty.
abbrev database : Database
database = record default_database { username = "u"; password = "p"; dbname = "d" }

abbrev settings : Settings
settings = record {
  server = default_server 4;
  proxy = default_proxy;
  env = Env.sandbox;
  master_database = database;
  replica_database = database;
  redis = default_redis;
  log_file = record { enabled = false; path = ""; file_name = ""; filtering_directive = none };
  secrets = record {
    jwt_secret = "j";
    admin_api_key = "a";
    recon_admin_api_key = "";
    master_enc_key = "m";
  };
  locker = default_locker;
  eph_key = default_ephemeral;
  scheduler = some (default_scheduler 4);
  drainer = default_drainer;
  jwekey = record {
    vault_encryption_key = "";
    rust_locker_encryption_key = "";
    vault_private_key = "";
    tunnel_private_key = "";
  };
  webhooks = record {
    outgoing_enabled = false;
    ignore_error = record { event_type = none; payment_not_found = none };
  };
  api_keys = record { hash_key = "00" };
  encryption_management = EncryptionManagementConfig.no_encryption;
  secrets_management = SecretsManagementConfig.no_encryption;
  cors = default_cors;
  lock_settings = record {
    redis_lock_expiry_seconds = 180;
    delay_between_retries_in_milliseconds = 500;
    lock_retries = 360;
  };
  kv_config = default_kv;
  events = EventsConfig.logs;
  unmasked_headers = [];
}

passes : validate settings ≡ ok tt
unfolding validate validate_server when is_default_or_empty is_empty_text trim trim_end trim_start
    is_whitespace validate_database validate_redis validate_log_file validate_secrets
    validate_locker validate_api_keys validate_cors validate_drainer validate_lock
    validate_optional_scheduler validate_producer validate_scheduler validate_secrets_management
    put_before u32_is_default_or_empty
passes = refl

no_dbname :
    validate (record settings { master_database = default_database })
    ≡ err (invalid_configuration_value_error "database name must not be empty")
unfolding validate validate_server when is_default_or_empty is_empty_text trim trim_end trim_start
    is_whitespace validate_database put_before
no_dbname = refl

validate_iff_example : (validate settings ≡ ok tt) ↔ ValidSettings settings
validate_iff_example = validate_iff settings
