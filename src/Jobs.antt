-- ===== src/Jobs.antt =====
-- Package shared/jobs: the job model, the jobs table, the admission queue over it.
pub mod Model
pub mod Table
mod Upkeep
pub mod Rows
pub mod Queue
