-- ===== src/Usenet/Pools.antt =====
-- shared/usenet/download/pool.go: connection pools that are shared by host and user.
pub mod Shared
pub mod Clients
pub mod Invariant
pub mod Usage
mod Tests
