-- ===== src/Usenet/Yenc.antt =====
-- shared/usenet/decoder/yenc.go: articles in yEnc.
pub mod Lines
pub mod Decode
pub mod RoundTrip
mod Tests
