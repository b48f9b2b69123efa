-- ===== src/Usenet/Reader.antt =====
-- shared/usenet/download/readerat.go: a file of a release as a reader, fetched by segments.
pub mod Machine
pub mod Segments
pub mod Find
pub mod Reads
pub mod Whole
pub mod Progress
mod Tests
