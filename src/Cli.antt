-- ===== src/Cli.antt =====
-- The crate ats-cli: crates/ats-cli/src.
pub mod Hooks
pub mod Manual
pub mod SocketClient
pub mod Query
pub mod DaemonCommands
pub mod Launchd
pub mod EventPrototype
pub mod Standalone
pub mod Doctor
pub mod Themes
