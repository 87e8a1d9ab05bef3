-- ===== src/Adaptive.antt =====
-- internal/engine/adaptive.go: the challenges that escalate with the threat score.
pub mod Challenge
pub mod Escalation
pub mod Forgetting
mod Tests
