-- ===== src/Storage.antt =====
-- internal/storage: accounts and sessions in SQL.
pub mod Unix
pub mod Queries
pub mod Sql
pub mod Sqlite
pub mod Migrations
mod Tests
