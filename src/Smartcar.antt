-- ===== src/Smartcar.antt =====
-- internal/smartcar: the data of the vehicle API, the API as an interface, and its HTTP client.
pub mod Models
pub mod Names
pub mod Api
pub mod Json
pub mod Decode
pub mod Http
pub mod Retry
pub mod Client
pub mod Token
pub mod Vehicle
pub mod Setup
pub mod Transport
pub mod Signals
pub mod Connections
pub mod Demo
mod Tests
