-- ===== src/Rendering.antt =====
-- The crate ats-rendering: the engine that dispatches to the renderers, its rate limit, and the
-- notification policy.
pub mod Engine
pub mod Policy
pub mod RateLimit
