-- ===== src/Audit.antt =====
-- internal/compliance/audit.go: the audit log with its chain of hashes. The locks are left out.
pub mod Log
pub mod Chain
mod Tests
