-- ===== src/Providers.antt =====
-- How files are fetched from the debrid providers, from src/shared/providers.
pub mod Body
pub mod Download
pub mod Served
pub mod Resumed
pub mod Parallel
pub mod Writes
pub mod Chunks
pub mod Cover
pub mod Fetch
pub mod Retries
mod Tests
