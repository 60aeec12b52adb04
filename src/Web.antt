-- ===== src/Web.antt =====
-- internal/web: the guards, the pages, the handlers and the routes.
pub mod Guards
pub mod Views
pub mod Response
pub mod Handlers
pub mod Setup
pub mod Routes
pub mod Cookies
pub mod Refreshed
pub mod Demo
mod Tests
