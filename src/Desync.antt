-- ===== src/Desync.antt =====
-- internal/engine/desync.go: the detector of requests whose length two servers could read differently.
pub mod Checks
pub mod Framing
mod Tests
