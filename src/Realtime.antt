-- ===== src/Realtime.antt =====
-- internal/realtime: the push of updates to connected clients.
pub mod Events
pub mod Hub
pub mod Worker
pub mod Redis
pub mod Fetch
pub mod Detector
pub mod Invalidator
pub mod Tests
