-- ===== src/Session.antt =====
-- internal/session/session.go: the session store with its indices by user and by address. A time is
-- the number of nanoseconds since the Unix epoch, and `time.Now()` is an argument.
pub mod State
pub mod Store
pub mod Sweep
pub mod Index
mod Tests
