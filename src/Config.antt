-- ===== src/Config.antt =====
-- The crate ats-config: crates/ats-config/src.
pub mod Theme
pub mod Coverage
pub mod Settings
pub mod Atomic
pub mod Paths
