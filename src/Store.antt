-- ===== src/Store.antt =====
-- The SQLite store (internal/store/sqlite.go): its data and queries, its methods, and what is proved
-- of them.
pub mod Record
pub mod Queries
pub mod Changes
pub mod Methods
pub mod Rows
pub mod Locality
pub mod Unique
pub mod Select
pub mod Claims
pub mod Batches
