-- ===== src/Tests.antt =====
-- Runs of the modelled code and instances of the theorems.
mod Countries
mod Retries
mod IntText
mod KeyValues
mod Batches
mod Database
mod Updates
mod Statements
mod RedisServer
mod Drains
mod Shutdowns
mod SchedulerStore
mod Scheduling
mod Caches
mod StaticCaches
mod Currencies
mod Configs
mod Cryptos
pub mod Keys
mod ApiKeys
mod ApiErrors
