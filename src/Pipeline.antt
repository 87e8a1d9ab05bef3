-- ===== src/Pipeline.antt =====
-- internal/engine/engine.go and the scoring of internal/engine/confidence.go: the inspectors in a row,
-- and the decision on a request. The scores are taken as whole numbers, for which the sums
-- of float64 are exact. A confidence is a whole
-- number of hundredths.
pub mod Types
pub mod Detection
pub mod Confidence
pub mod Stability
pub mod Engine
pub mod Made
pub mod Verdict
pub mod Shadow
pub mod Replace
mod Tests
