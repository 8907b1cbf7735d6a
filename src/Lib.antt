-- ===== src/Lib.antt =====
-- A model of pgfs, a FUSE file system whose directories and files are rows of two PostgreSQL tables,
-- with proofs about it.
--
-- The program's parts and the files that model them:
-- - Path: `join` (src/db.rs) and `split_path` (src/fs.rs), between a path and its (parent, name) key.
-- - Block: one round of the loops that cut a write into 64 KiB blocks. The loop stands twice in the
--   source, in `HandleBuffer::write` (src/fs.rs) and in `Db::write_range` (src/db.rs).
-- - Handle: `HandleBuffer`, the dirty blocks of an open file handle (src/fs.rs).
-- - Metrics: the counters, the liveness heartbeat, the latency histogram, and in Report the texts of
--   the periodic export and of the state dump (src/metrics.rs).
-- - Inodes: the maps between paths and inode numbers that `PgFs` keeps (src/fs.rs).
-- - Db: the methods of `Db` (src/db.rs). Rows has the tables and the SQL statements, Like the
--   condition by which `rename` finds descendants, Exec the monad of statements and transactions,
--   Replica the routing of reads, Content the contents of files, Names the directory entries, and
--   Operations puts the operations together. The other modules have proofs: Atomic and Keeps on
--   statements that fail, Keys and Types on the primary keys and the columns, Freshness on the
--   standby, Like.Plain on paths without wildcards, Content's modules on the bytes of files, and
--   Names' modules on entries. Volume is the abstract view of the tables, a map of names to
--   directories and to files with their bytes; its modules relate each operation to it, Session
--   sequences of operations, and Faults those whose statements fail.
-- - Fs: `PgFs` and its callbacks (src/fs.rs). State has the record, the replies and the shared parts,
--   Attributes `lookup`, `getattr` and `setattr`, Files the callbacks on open files, Entries those on
--   directory entries, with proofs on listings in its modules. Session puts the callbacks together,
--   one after another; Invariant and Handles are what they keep of the tables; Failure is about a
--   flush that fails, Stranded about one after a rename, ReadOnly about the callbacks that only
--   read, Latency about the time that they take, and Client about a program that creates, writes
--   and reads a file.
-- - Process and Profiling: the start and the end of the process with its health files, the deadlock
--   watchdog, the signal mask, the signal waiter and the report of a panic (src/main.rs), and the
--   toggling of the CPU profiler (src/profiling.rs). The kernel, the signals and the file system
--   are arguments.
-- - Story: errors with contexts (src/error.rs). Db.Pool: how a connection is opened (src/db.rs).
-- - Dict and Prelude: `HashMap` as an association list, lists and words. Tests has test runs and
--   instances of the theorems.
--
-- A callback is a function from the state of `PgFs` to the new state and the reply. It runs its
-- database operations through `on_ok`, which answers EIO where one fails. A database operation is a
-- function from `Db` to a result and the new `Db`; a result is a value, an error or a panic. `Db`
-- holds the tables of the primary server, the metrics (the statics of the source), and what the
-- server decides: `faults` lists the outcome of each statement to come (it runs, it fails, or it
-- runs and the reply is lost), so that the theorems hold for every pattern of failures. The SQL
-- text is part of the source and is translated by the meaning of its statements, with the order of
-- names (the collation), the clock and the standby's answers as values of the state.
--
-- Numbers: a `u64` is a number below 2^64 and an `i32` a bit pattern below 2^32; the casts between
-- them, and the sums and differences of offsets, wrap as they do in a release build. The counters
-- of inode numbers and file handles are taken not to reach 2^64. Text is the list of its code
-- points, a file's data the list of its bytes. A slice outside of its vector is a panic, which is
-- a value here. The loop of `read_range_primary` takes fuel: the number of blocks that a read can
-- touch, and two more.
--
-- Not modelled: the arguments and the set-up of tracing (src/main.rs), which only call libraries;
-- a thread that cannot be spawned; the build script; the texts that the program logs, but for the contexts of an error, those of the
-- metrics and that of a panic; the recording of DB_LATENCY; and `init`, which only sets options of
-- the FUSE library. One client is taken to use the database at a time. The packages r2d2, postgres
-- and anyhow are parameters where their answers matter.
mod Prelude
pub mod Dict
pub mod Path
pub mod Block
pub mod Handle
pub mod Metrics
pub mod Inodes
pub mod Db
pub mod Fs
pub mod Profiling
pub mod Process
pub mod Story
mod Tests
