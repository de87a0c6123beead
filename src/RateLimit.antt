-- ===== src/RateLimit.antt =====
-- app/core/rate_limiter.py and app/core/auth_rate_limiter.py: two limiters in memory. Both keep a
-- deque of instants for each client, oldest first. An instant is a count of nanoseconds of the
-- monotonic clock; a comparison with `now - window` is written with a sum.
pub mod Window
pub mod Log
pub mod Request
pub mod Failures
mod Examples
