-- ===== src/Errors.antt =====
-- Error contexts of the crates: crates/diesel_models/src/errors.rs, crates/redis_interface/src/errors.rs,
-- crates/data_models/src/errors/db.rs, crates/scheduler/src/errors.rs and crates/drainer/src/errors.rs.
-- A `Report` is its current context: attachments and the frames below are dropped. Payloads that are
-- errors of other packages are left out.
use mercado.Prelude.{String, Option}

pub data DatabaseError : Type 0 where
  database_connection_error not_found unique_violation : DatabaseError
  no_fields_to_update query_generation_failed others : DatabaseError

pub data RedisError : Type 0 where
  invalid_configuration : String → RedisError
  set_failed set_nx_failed set_ex_failed set_expiry_failed get_failed delete_failed : RedisError
  stream_append_failed stream_read_failed get_length_failed stream_delete_failed : RedisError
  stream_trim_failed stream_acknowledge_failed stream_empty_or_not_available : RedisError
  consumer_group_create_failed consumer_group_destroy_failed : RedisError
  consumer_group_remove_consumer_failed consumer_group_set_id_failed : RedisError
  consumer_group_claim_failed json_serialization_failed json_deserialization_failed : RedisError
  set_hash_failed set_hash_field_failed set_add_members_failed get_hash_field_failed : RedisError
  not_found invalid_redis_entry_id redis_connection_error subscribe_error : RedisError
  publish_error on_message_error unknown_result : RedisError

pub data StorageError : Type 0 where
  initialization_error : StorageError
  database_error : DatabaseError → StorageError
  value_not_found : String → StorageError
  duplicate_value : String → Option String → StorageError
  database_connection_error kv_error serialization_failed mock_db_error : StorageError
  kafka_error customer_redacted deserialization_failed encryption_error : StorageError
  decryption_error : StorageError
  redis_error : RedisError → StorageError

pub data ProcessTrackerError : Type 0 where
  unexpected_flow serialization_failed deserialization_failed : ProcessTrackerError
  missing_required_field batch_insertion_failed process_insertion_failed : ProcessTrackerError
  batch_not_found batch_update_failed batch_delete_failed : ProcessTrackerError
  configuration_error process_update_failed process_fetching_failed : ProcessTrackerError
  resource_fetching_failed flow_execution_error : String → ProcessTrackerError
  not_implemented job_not_found e_api_error_response e_client_error : ProcessTrackerError
  e_storage_error : StorageError → ProcessTrackerError
  e_redis_error : RedisError → ProcessTrackerError
  e_parsing_error e_validation_error type_conversion_error : ProcessTrackerError

pub data DrainerError : Type 0 where
  config_parsing_error : String → DrainerError
  redis_error : RedisError → DrainerError
  configuration_error : DrainerError
  signal_error : String → DrainerError
  parsing_error : DrainerError
  unexpected_error : String → DrainerError
  io_error : DrainerError
