-- ===== src/Billing.antt =====
-- internal/billing: what a tenant has used, what its limit
-- is, what its tier grants, and the license keys. The payment service is not modelled.
pub mod Usage
pub mod Features
pub mod License
mod Tests
