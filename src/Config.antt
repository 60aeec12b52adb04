-- ===== src/Config.antt =====
-- internal/config: the configuration, how it is read from the environment and flags, and its validation.
pub mod Types
pub mod Values
pub mod Redact
pub mod Validate
pub mod Defaults
pub mod FlagSet
pub mod Load
pub mod Address
pub mod Demo
mod Tests
