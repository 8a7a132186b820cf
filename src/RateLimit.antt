-- ===== src/RateLimit.antt =====
-- internal/lib/ratelimit/ratelimit.go: the limiter that spaces requests.
pub mod Defs
pub mod Runs
pub mod Cases
pub mod Spacing
pub mod Fifo
pub mod Wakeups
pub mod Drain
