-- ===== src/Tests.antt =====
-- Concrete runs of the theorems, on a device with one feature table and a script of its answers.
pub mod Sample
pub mod Pure
pub mod Transport
pub mod Reading
pub mod Exchange
pub mod Writing
pub mod Config
pub mod Settings
pub mod Daemon
pub mod Latency
pub mod Cli
