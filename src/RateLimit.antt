-- ===== src/RateLimit.antt =====
-- internal/ratelimit/ratelimit.go: the limiter's state, its configuration and its entry point.
-- A time is the number of nanoseconds since the Unix epoch, and `time.Now()` is an argument. The
-- rates and bursts are the configured numbers, which are not negative. A Go pair of a Boolean and a
-- decision is the decision, whose `allowed` is the Boolean.
pub mod State
pub mod Config
pub mod FixedWindow
pub mod SlidingWindow
pub mod TokenBucket
pub mod LeakyBucket
pub mod Cleanup
pub mod Inspect
pub mod Isolation
mod Tests
