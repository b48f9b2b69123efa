-- ===== src/Crypto.antt =====
-- shared/crypto: files and text that are stored encrypted.
pub mod Dare
pub mod Packages
pub mod Ranges
pub mod Cipher
mod Tests
