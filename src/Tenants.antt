-- ===== src/Tenants.antt =====
-- internal/tenant: the tenants, what keeps them apart, and the partners that manage them.
pub mod Manager
pub mod Isolation
pub mod Partner
mod Tests
