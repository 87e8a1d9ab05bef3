-- ===== src/Ddos.antt =====
-- internal/engine/ddos.go: the protection against floods. A time is a number of nanoseconds; all the
-- readings of the clock of one request give the same time. The rates are not negative.
pub mod Counter
pub mod Flood
pub mod Slow
pub mod CacheBusting
pub mod Inspect
pub mod Quota
mod Tests
