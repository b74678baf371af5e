-- ===== src/Sqlite.antt =====
-- The SQLite backend (sqlite/).
pub mod Predicate
pub mod Table
pub mod Consistency
pub mod Save
pub mod Read
