-- ===== src/Db/Keys.antt =====
-- The primary keys of the tables (src/db.rs): no operation breaks them, whichever statements fail.
pub mod Updates
pub mod Contents
pub mod Entries
pub mod Operations
use pgfs.Prelude.{Str}
use pgfs.Db.Rows.{Tables}
use pgfs.Db.Replica.{getattr_primary}
use pgfs.Db.Names.Moved.{IsKeyed}
use pgfs.Db.Content.Stored.{IsTable}
use pgfs.Db.Keeps.{Keeps, keeps_rules}

-- Both tables keep their primary keys, and a block number is an `i32`.
abbrev pub HasKeys : Tables → Type 0
HasKeys t = IsKeyed t.entries × IsTable t.blocks

pub getattr_primary-Keeps : (p n : Str) → Keeps HasKeys (getattr_primary p n)
unfolding getattr_primary
getattr_primary-Keeps p n = search keeps_rules
