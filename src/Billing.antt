-- ===== src/Billing.antt =====
-- Plans that are granted, prolonged and renewed, from shared/billing/common.go and shared/auth.
pub mod Expiry
pub mod Purchase
pub mod Repeated
pub mod Lasting
pub mod Renewal
mod Tests
pub mod Pause
