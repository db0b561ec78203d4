-- ===== src/Security.antt =====
-- src/server/security: the rate limiter.
pub mod RateLimit
pub mod Windows
pub mod LimitLaws
