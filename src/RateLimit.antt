-- ===== src/RateLimit.antt =====
-- src/service/ratelimit.rs: the limit on the requests in flight.
pub mod Rules
pub mod Limiter
pub mod Apply
