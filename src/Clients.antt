-- ===== src/Clients.antt =====
-- The programs that talk to a server: the command-line client with its shell, the monitor and the
-- benchmark. Each writes a request to its socket and reads until a whole response is there.
pub mod Response
pub mod Cli
pub mod Shell
pub mod Bench
pub mod Monitor
