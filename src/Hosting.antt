-- ===== src/Hosting.antt =====
-- src/hosting/deadlines.ts: the deadlines of an ended subscription.
pub mod Deadlines
mod Tests
