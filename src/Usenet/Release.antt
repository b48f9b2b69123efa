-- ===== src/Usenet/Release.antt =====
-- shared/usenet/download/readerat.go, `NewFileReaderAt`: a reader over articles that are decoded.
pub mod Fetch
pub mod Posted
mod Tests
