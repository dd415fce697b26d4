-- ===== src/RateLimit.antt =====
-- internal/ratelimit: limits for a path, the client of a request, and the table of limiters.
pub mod Limits
pub mod Longest
pub mod ClientIp
pub mod Table
pub mod Limiter
mod Tests
pub mod Forwarded
