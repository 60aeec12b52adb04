-- ===== src/Command.antt =====
-- cmd/smartcar-4runner/main.go: the choice of the vehicle API, and the start and the end of the
-- program.
pub mod Choice
pub mod Run
pub mod Server
mod Tests
