-- ===== src/Eviction/Engine.antt =====
-- shared/eviction: eviction.go, watermark.go and reconcile.go, the passes of the engine on a node.
pub mod Steps
pub mod Verdict
pub mod Marked
pub mod Cleared
pub mod Reclaim
pub mod Reclaimed
pub mod Gc
pub mod Evict
mod Tests
