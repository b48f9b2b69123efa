-- ===== src/Stream/Guards.antt =====
-- stream/internal/server/streamlimit.go and ziplimit.go: limits on what is served at once. A call
-- under the mutex is one step; a map from users to counts is read as 0 where there is no key.
pub mod StreamGuard
pub mod ZipGuard
mod Tests
