-- ===== src/Daemon.antt =====
-- The crate ats-daemon: crates/ats-daemon/src.
pub mod Broker
pub mod Framing
pub mod Server
pub mod PidFile
pub mod Logging
pub mod Paths
pub mod Startup
