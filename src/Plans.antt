-- ===== src/Plans.antt =====
-- shared/plans: plans.go and pricing.go, the plans and their prices.
pub mod Catalog
pub mod Pricing
pub mod Sale
pub mod Products
mod Tests
