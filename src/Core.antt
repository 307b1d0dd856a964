-- ===== src/Core.antt =====
-- crates/rustkv-core: the store, its commands and their execution.
pub mod HashMap
pub mod Sort
pub mod Error
pub mod Time
pub mod Entry
pub mod Database
pub mod Sharded
pub mod Command
pub mod Stats
pub mod Executor
