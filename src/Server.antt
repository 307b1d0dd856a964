-- ===== src/Server.antt =====
-- crates/rustkv-server: the append-only log, a connection and what a client's frames do.
pub mod Disk
pub mod Aof
pub mod Config
pub mod Connection
pub mod Client
pub mod Ttl
pub mod Startup
pub mod Run
