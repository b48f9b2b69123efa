-- ===== src/Reseller.antt =====
-- Codes that resellers sell: shared/auth/reseller.go and api/internal/handlers/reseller.go.
pub mod Codes
pub mod Redeem
pub mod Once
mod Tests
pub mod Limiter
