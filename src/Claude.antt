-- ===== src/Claude.antt =====
-- The crate ats-provider-claude: crates/ats-provider-claude/src.
pub mod Risk
pub mod Hooks
pub mod Adapter
pub mod Install
