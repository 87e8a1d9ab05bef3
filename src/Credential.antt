-- ===== src/Credential.antt =====
-- internal/engine/credential.go: the protection of logins.
pub mod State
pub mod Login
pub mod Spray
pub mod BruteForce
pub mod Token
pub mod Inspect
mod Tests
