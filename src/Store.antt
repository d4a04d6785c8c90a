-- ===== src/Store.antt =====
-- internal/store: the SQLite tables as lists of rows in insertion (rowid) order, and the methods
-- of `Store` as functions on them.
mod Tests
pub mod Rows
pub mod Operations
pub mod Logs
pub mod Steps
pub mod Apps
pub mod Secrets
pub mod Env
