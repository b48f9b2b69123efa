-- ===== src/Keyed.antt =====
-- shared/keyed/locker.go: a mutex for each key, kept only while somebody uses it.
pub mod Locker
pub mod Threads
pub mod Invariant
pub mod Exclusion
mod Tests
