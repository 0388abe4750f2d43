-- ===== src/Config/Checks/Valid.antt =====
-- The whole configuration of the router.
use mercado.Config.Checks.Leaves.{then_iff, map_err_iff}
use mercado.Prelude.{◌≡◌, ◌↔◌}
use mercado.Config.Checks.Parts.{
  ValidServer, ValidDatabase, ValidRedisSettings, ValidLogFile, server_iff, ValidSecrets,
  database_iff, ValidLocker, ValidCorsSettings, redis_iff, ValidOptionalScheduler, log_file_iff,
  ValidDrainerSettings, secrets_iff, ValidApiKeys, locker_iff, ValidLockSettings, cors_iff,
  ValidSecretsManagement, optional_scheduler_iff, drainer_iff, api_keys_iff, lock_iff,
  secrets_management_iff,
}
use mercado.Config.Checks.{validate}
use mercado.Config.Settings.{Settings}
use mercado.Prelude.Results.{ok}

abbrev pub ValidSettings : Settings → Type 0
ValidSettings s =
    ValidServer s.server
    × (ValidDatabase s.master_database
        × (ValidDatabase s.replica_database
            × (ValidRedisSettings s.redis
                × (ValidLogFile s.log_file
                    × (ValidSecrets s.secrets
                        × (ValidLocker s.locker
                            × (ValidCorsSettings s.cors
                                × (ValidOptionalScheduler s.scheduler
                                    × (ValidDrainerSettings s.drainer
                                        × (ValidApiKeys s.api_keys
                                            × (ValidLockSettings s.lock_settings
                                                × ValidSecretsManagement
                                                    s.secrets_management)))))))))))

-- The configuration of the router passes the checks exactly if all of these hold. A character that
-- is no white space is in: the server's host; the host, name, user and password of both databases;
-- the Redis host; the JWT secret, admin API key and master key; the drainer's stream name; and, in
-- the cases that follow, the log file's name and path if it is enabled, both locker hosts unless the
-- locker is mocked, the scheduler's stream, consumer group, producer's lock key and server's host if
-- there is a scheduler, and the key id and region of KMS or the url and token of Vault if one is
-- chosen. The API keys' hash key is not the empty text. Positive are the workers of the server and of a
-- scheduler's server, and the three numbers of the locks. Redis has cluster urls if clusters are
-- enabled, and its unresponsive timeout is at most the command timeout. The origins of CORS are
-- empty with the wildcard, and not empty without it.
pub validate_iff : (s : Settings) → (validate s ≡ ok tt) ↔ ValidSettings s
unfolding validate
validate_iff s = then_iff _ _ (server_iff s.server) (
    then_iff _ _ (database_iff s.master_database) (
      then_iff _ _ (database_iff s.replica_database) (
        then_iff _ _ (map_err_iff _ _ (redis_iff s.redis)) (
          then_iff _ _ (log_file_iff s.log_file) (
            then_iff _ _ (secrets_iff s.secrets) (
              then_iff _ _ (locker_iff s.locker) (
                then_iff _ _ (cors_iff s.cors) (
                  then_iff _ _ (optional_scheduler_iff s.scheduler) (
                    then_iff _ _ (drainer_iff s.drainer) (
                      then_iff _ _ (api_keys_iff s.api_keys) (
                        then_iff _ _ (lock_iff s.lock_settings)
                          (map_err_iff _ _ (secrets_management_iff s.secrets_management)))))))))))))
