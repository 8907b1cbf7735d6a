-- ===== src/Db/Keys/Operations.antt =====
-- Every operation of src/db.rs that changes the tables keeps the primary keys.
use pgfs.Db.Exec.{Db}
use pgfs.Db.Operations.{
  Operation, run, writes, truncates, overwrites, flushes, creates, mkdirs, unlinks, rmdirs, renames,
}
use pgfs.Db.Keys.{HasKeys}
use pgfs.Db.Keys.Contents.{
  AreI32, write_range-Keeps, truncate-Keeps, write-Keeps, write_blocks_batch-Keeps,
}
use pgfs.Db.Keys.Entries.{create-Keeps, mkdir-Keeps, unlink-Keeps, rmdir-Keeps, rename-Keeps}

-- The blocks of a flush have numbers that are `i32`.
abbrev pub HasNumbers : Operation → Type 0
HasNumbers (writes p n offset buf) = Unit {0}
HasNumbers (truncates p n size) = Unit {0}
HasNumbers (overwrites p n buf) = Unit {0}
HasNumbers (flushes p n blocks size) = AreI32 blocks
HasNumbers (creates p n) = Unit {0}
HasNumbers (mkdirs p n) = Unit {0}
HasNumbers (unlinks p n) = Unit {0}
HasNumbers (rmdirs p n) = Unit {0}
HasNumbers (renames p n q m) = Unit {0}

-- Whichever statements fail, an operation on tables that keep their primary keys leaves tables that
-- do.
pub run-HasKeys :
    (op : Operation) (s : Db) → HasNumbers op → HasKeys s.tables → HasKeys (run op s).1.tables
run-HasKeys (writes p n offset buf) s i h = (write_range-Keeps p n offset buf).at s h
run-HasKeys (truncates p n size) s i h = (truncate-Keeps p n size).at s h
run-HasKeys (overwrites p n buf) s i h = (write-Keeps p n buf).at s h
run-HasKeys (flushes p n blocks size) s i h = (write_blocks_batch-Keeps p n blocks size i).at s h
run-HasKeys (creates p n) s i h = (create-Keeps p n).at s h
run-HasKeys (mkdirs p n) s i h = (mkdir-Keeps p n).at s h
run-HasKeys (unlinks p n) s i h = (unlink-Keeps p n).at s h
run-HasKeys (rmdirs p n) s i h = (rmdir-Keeps p n).at s h
run-HasKeys (renames p n q m) s i h = (rename-Keeps p n q m).at s h
