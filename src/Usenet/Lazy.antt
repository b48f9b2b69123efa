-- ===== src/Usenet/Lazy.antt =====
-- The reader of shared/usenet/reader.go, over one file of a release.
pub mod Machine
pub mod Layout
pub mod Genuine
pub mod Reads
mod Tests
