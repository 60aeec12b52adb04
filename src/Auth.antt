-- ===== src/Auth.antt =====
-- internal/auth: accounts and sessions over the storage, as an interface.
pub mod Types
pub mod Service
pub mod Laws
pub mod Sessions
pub mod Accounts
mod Tests
