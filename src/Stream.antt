-- ===== src/Stream.antt =====
-- Package stream/internal/server: seekable zip archives, byte ranges, and limits on downloads.
pub mod Zip
pub mod ByteRange
pub mod Guards
