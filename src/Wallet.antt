-- ===== src/Wallet.antt =====
-- shared/auth/wallet.go: the users' wallets, their ledger, and a plan that is bought from one.
pub mod Ledger
pub mod Balance
pub mod Replay
mod Tests
