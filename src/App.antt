-- ===== src/App.antt =====
-- internal/app/app.go: the service that refreshes snapshots from the vehicle API.
pub mod Types
pub mod Names
pub mod Select
pub mod Snapshot
pub mod Refresh
pub mod Concurrent
pub mod Live
mod Tests
