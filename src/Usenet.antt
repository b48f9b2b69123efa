-- ===== src/Usenet.antt =====
-- Package shared/usenet: the decoder of articles, shared connections, and files read by segments.
pub mod Pools
pub mod Reader
pub mod Yenc
pub mod Release
pub mod Archive
pub mod Lazy
