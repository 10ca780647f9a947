-- ===== src/Db.antt =====
-- include/db and src/db: the store of a client, as tables of timestamped rows.
pub mod Priority
pub mod Rows
pub mod State
pub mod Queries
pub mod Upserts
pub mod Interface
pub mod Reached
pub mod Column
