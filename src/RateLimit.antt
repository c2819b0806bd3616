-- ===== src/RateLimit.antt =====
-- src/ratelimit.ts: the limiters in front of the public routes and of the admin token.
pub mod Window
pub mod Backoff
pub mod Address
