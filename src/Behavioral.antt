-- ===== src/Behavioral.antt =====
-- internal/engine/behavioral.go: the request velocity, the reputation and the path entropy of an address.
pub mod Window
pub mod Burst
pub mod Entropy
pub mod Inspect
pub mod Ban
mod Tests
