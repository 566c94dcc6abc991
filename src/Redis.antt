-- ===== src/Redis.antt =====
-- The package redis: options, clients with the package's rate limiter, and the cache.
pub mod Options
pub mod Client
pub mod Cache
pub mod Tests
