-- ===== src/Clients/Shell.antt =====
-- The interactive shell, `tui.rs` of rustkv-cli. A `String` is the sequence of its characters here.
pub mod Line
pub mod App
pub mod Session
pub mod Keys
