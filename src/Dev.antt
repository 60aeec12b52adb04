-- ===== src/Dev.antt =====
-- internal/devsmartcar: the mocked backend behind the interface of the vehicle API.
pub mod Outcomes
pub mod Fixtures
pub mod Values
pub mod Backend
mod Tests
