-- ===== src/Catalog.antt =====
-- server/deal_sql.c: users, files and the users' directory trees, in three tables.
pub mod Tables
pub mod Directory
pub mod Transfer
pub mod Account
pub mod Fits
pub mod Chain
pub mod MakeDir
pub mod Lifecycle
pub mod Register
pub mod Remove
pub mod Sample
mod Tests
