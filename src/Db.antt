-- ===== src/Db.antt =====
-- The database layer (src/db.rs). The text of each SQL statement is translated with the statement's
-- meaning on the two tables; the server itself enters as the outcome of each statement.
pub mod Rows
pub mod Like
pub mod Exec
pub mod Replica
pub mod Content
pub mod Names
pub mod Atomic
pub mod Pool
pub mod Freshness
pub mod ReadOnly
pub mod Operations
pub mod Keeps
pub mod Keys
pub mod Types
pub mod Volume
