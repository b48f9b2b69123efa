-- ===== src/Eviction.antt =====
-- Package shared/eviction: which cached content is deleted, and what a deletion does to the store,
-- the blobs and the jobs.
pub mod Policy
pub mod World
pub mod Engine
