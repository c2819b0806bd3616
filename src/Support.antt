-- ===== src/Support.antt =====
-- src/support-session-limiter.ts: admission of anonymous support sessions.
pub mod Sketch
pub mod Spacing
mod Tests
