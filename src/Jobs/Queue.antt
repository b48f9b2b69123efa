-- ===== src/Jobs/Queue.antt =====
-- shared/jobs/queue.go, queue_state.go and the inserts of identity.go: admission of downloads.
-- A transaction runs under the advisory locks that it takes, so it is one step on the table;
-- what was read before the locks is an argument of its own (`seen`). `faults` says which
-- statements fail. An int64 comparison `budget - used < room` is written `budget < used + room`.
mod Steps
pub mod Identity
pub mod Change
pub mod Cases
pub mod Promotion
pub mod Writes
pub mod Reach
pub mod Decision
pub mod Order
pub mod Progress
mod Tests
unfoldable pub use Steps.{update_job, overwrite}
