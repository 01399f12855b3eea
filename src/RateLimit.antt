-- ===== src/RateLimit.antt =====
-- The sliding-window rate limiters of crates/infrastructure/src/auth/rate_limit.rs.
pub mod InMemory
pub mod ValKey
mod Tests
