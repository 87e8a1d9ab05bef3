-- ===== src/Performance.antt =====
-- internal/engine/performance.go: the circuit breakers and the limits that guard the inspectors.
-- A time is a number of nanoseconds, a timeout one of milliseconds. The watchdog, Stats and the
-- metrics of the runtime are not modelled.
pub mod Breaker
pub mod Manager
pub mod Trips
pub mod Restores
mod Tests
