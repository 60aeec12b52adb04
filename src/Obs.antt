-- ===== src/Obs.antt =====
-- internal/obs: the metrics of requests, the middleware around the routes, and the set-up of both.
pub mod Metrics
pub mod Middleware
pub mod Setup
mod Tests
