-- ===== src/Daemon.antt =====
-- The daemon (src/daemon/daemon.cpp): profile selection, the retry deny list, configuration pushes, latencies
-- and the texts of its IPC answers.
pub mod Profiles
pub mod Focus
pub mod Push
pub mod JsonStr
pub mod Deny
pub mod Latency
