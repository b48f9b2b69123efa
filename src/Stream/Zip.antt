-- ===== src/Stream/Zip.antt =====
-- stream/internal/server/ziplayout.go: the bytes of a stored zip archive, laid out without reading
-- the files, and the part of them that a range request asks for.
pub mod Layout
pub mod Headers
pub mod Window
pub mod Offsets
mod Tests
