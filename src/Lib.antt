-- ===== src/Lib.antt =====
-- Verification library of mercado, a payment service in Rust whose scheduler and drainer run
-- background work from Postgres and Redis.
--
-- The parts and how they interact. A scheduler process is a producer or a consumer. The producer takes
-- a lock in Redis, reads the tasks that are due from the table of tasks, cuts them into batches,
-- appends the batches to a Redis stream and marks the tasks. A consumer reads batches from the stream,
-- deletes the entries and runs the workflow of each task, which retries, resets or finishes the task
-- in the table. Retry delays come from mappings in the configuration. The drainer executes the writes
-- that the key-value store has put in Redis streams. Lookups go through a cache in memory and one in
-- Redis.
--
-- The files, and the code each models (paths from the root of the repository):
-- - Prelude (Lists, Int, Results, Exec): words shared by the models. `Exec W E A` is a call that may
--   change the world `W` and end in an error `E`; what was done before an error stays done.
-- - Errors: the error contexts of the crates diesel_models, redis_interface, data_models, scheduler
--   and drainer.
-- - Enums/Country: crates/common_enums/src/transformers.rs and enums.rs, the country codes.
-- - Db/Table, Db/Generics: crates/diesel_models/src/generics.rs over the statements of diesel.
-- - Scheduler/Retry: get_delay and get_*schedule_time of crates/scheduler/src/utils.rs, with the
--   mappings of crates/scheduler/src/consumer/types/process_data.rs.
-- - Scheduler/ProcessTracker: the task row of crates/diesel_models/src/process_tracker.rs.
-- - Scheduler/Tasks: the statements on tasks, crates/diesel_models/src/query.rs.
-- - Scheduler/Store: `impl ProcessTrackerInterface for Store`, crates/scheduler/src/db/process_tracker.rs.
-- - Scheduler/Batch: crates/scheduler/src/consumer/types/batch.rs, and divide of
--   crates/scheduler/src/utils.rs.
-- - Redis: crates/redis_interface/src/types.rs and commands.rs over the commands of fred.
-- - Drainer: crates/drainer/src/handler.rs, stream.rs, utils.rs, types.rs and query.rs, and
--   crates/diesel_models/src/kv.rs: entries are read from a stream, executed in order, and removed.
-- - Scheduler/Interface, Scheduler/Queue, Scheduler/Implementation: the traits of
--   crates/scheduler/src/db and scheduler.rs, and the store that implements them.
-- - Scheduler/Lock: lock_acquire_release of crates/scheduler/src/utils.rs.
-- - Scheduler/Producer: crates/scheduler/src/producer.rs, and the appending of batches in utils.rs.
-- - Scheduler/Consumer: crates/scheduler/src/consumer.rs and consumer/workflows.rs, and get_batches of
--   utils.rs.
-- - Storage/Kind: the messages of the cache invalidation channel, CacheKind of
--   crates/storage_impl/src/redis/cache.rs.
-- - Storage/Cache: the lookup through the caches and redact_cache, in the same file, over a moka cache
--   and serde_json, which are parameters with the laws of Storage/Cache/Coherence.
-- - Enums/Currency, Enums/Payments: the currencies, payment methods and statuses of the same files.
-- - Api: crates/data_models/src/errors and crates/api_models/src/errors, the errors of the API and
--   their responses.
-- - Db/ById, Db/Contents, Db/Connections: what tables with a text as their key share, and the laws of
--   their statements.
-- - ApiKeys: crates/diesel_models/src/api_key, crates/modules/src/service/api_key.rs and
--   core/api_key.rs, and crates/data_models/src/api_key.rs.
-- - Users: crates/diesel_models/src/user and crates/modules/src/service/user.rs.
-- - Storage/Kv: kv_wrapper and the shards of crates/storage_impl/src/redis/kv_store.rs, and
--   KVRouterStore of crates/storage_impl/src/lib.rs, over Redis/Hashes. Storage/Kv/Visits joins them to
--   the drainer.
-- - Config: the settings, their defaults and their checks, crates/router/src/configs, the scheduler's in
--   crates/data_models/src/configs, and crates/drainer/src/settings.rs. Config/Checks/Valid says what
--   the checks come to, Config/Hashsets and Config/Locks what is read for sets and for locks.
-- - Crypto: nonces, encryption, signatures and digests of crates/common_utils/src/crypto.rs.
-- - Storage/StaticCache: StaticCache of crates/common_utils/src/static_cache.rs.
-- - Redis/Json, Redis/Hashes, Redis/Groups: the further commands of
--   crates/redis_interface/src/commands.rs.
-- - Drainer/Shutdown: Handler::spawn and shutdown_listener of crates/drainer/src/handler.rs, and the
--   handlers, as steps in any order.
-- - Tests: runs of the code, and instances of the theorems on a database in memory.
--
-- Bounds and fuel. `i32` is the integers with additions that wrap around; other widths are said where
-- they occur. `slice::chunks` recurses on a bound, the length of the list, which is enough because each
-- chunk takes an element.
--
-- What is not code of the repository is a record that the definitions take: the SQL statements
-- (`Table`, with the laws in Scheduler/Store/Laws), the clock, the serialisers (`Codec`), the commands of Redis
-- (`Fred`, with the laws in Redis/Laws and Drainer/Handler/Laws). Panics are
-- results where a definition says so; that of a handler without a connection to the database is a step
-- of Drainer/Shutdown and no result of Drainer/Handler. Logs,
-- metrics, tracing and the timing of loops are left out, and so are the HTTP routes, the
-- reading of configuration files, the macros and the enumerations without operations. The errors of
-- users are left out because they stand behind a feature that their crate does not declare.
pub mod Config
pub mod Crypto
pub mod Prelude
pub mod Errors
pub mod Enums
pub mod Db
pub mod Redis
pub mod Drainer
pub mod Storage
pub mod Api
pub mod ApiKeys
pub mod Users
pub mod Scheduler
mod Tests
