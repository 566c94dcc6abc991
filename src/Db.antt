-- ===== src/Db.antt =====
-- The package db: connections, the generic repository helpers and migrations.
pub mod Sql
pub mod Repository
pub mod Migration
pub mod Connect
pub mod Ledger
pub mod Tests
