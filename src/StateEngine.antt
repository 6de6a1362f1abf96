-- ===== src/StateEngine.antt =====
-- The crate ats-state-engine: what an event means (Priority), one session's state machine (Machine)
-- and the table of sessions (Engine); the other modules hold the proofs.
pub mod Priority
pub mod Machine
pub mod Engine
pub mod Transitions
pub mod Session
pub mod Expiry
pub mod Ingest
pub mod Sweep
pub mod Aggregate
pub mod Valid
