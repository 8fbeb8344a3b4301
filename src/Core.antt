-- ===== src/Core.antt =====
-- The code under core/: the cache and Redis that it calls, and the middleware.
pub mod Cache
pub mod PyText
pub mod PyPath
pub mod RateLimit
pub mod Idempotency
pub mod Security
