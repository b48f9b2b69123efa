-- ===== src/Usenet/Archive.antt =====
-- shared/usenet/rarfs/rar.go: the content of a stored file over the volumes of an archive.
pub mod Entry
pub mod Reads
mod Tests
