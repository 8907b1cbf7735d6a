-- ===== src/Db/Operations.antt =====
-- The operations of `Db` (src/db.rs) that change the tables, as one type.
use pgfs.Prelude.{ℕ, Bool, true, false, ◌≡◌, arith, Str, str_key}
use pgfs.Dict.{Dict}
use pgfs.Block.{Bytes}
use pgfs.Db.Exec.{Db, Exec}
use pgfs.Db.Content.{write_range, truncate, write_blocks_batch, write}
use pgfs.Db.Names.{create, mkdir, unlink, rmdir, rename}
use pgfs.Db.Atomic.{
  write_range-AllOrNothing, truncate-AllOrNothing, rename-AllOrNothing,
  write_blocks_batch-AllOrNothing,
}
use pgfs.Db.Atomic.Whole.{AllOrNothing}
use pgfs.Db.Atomic.Single.{create-AllOrNothing, mkdir-AllOrNothing, rmdir-AllOrNothing}

pub data Operation : Type 0 where
  writes : Str → Str → ℕ → Bytes → Operation
  truncates : Str → Str → ℕ → Operation
  overwrites : Str → Str → Bytes → Operation
  flushes : Str → Str → Dict ℕ Bytes → ℕ → Operation
  creates mkdirs unlinks rmdirs : Str → Str → Operation
  renames : Str → Str → Str → Str → Operation

abbrev pub Answer : Operation → Type 0
Answer (writes p n offset buf) = Unit {0}
Answer (truncates p n size) = Unit {0}
Answer (overwrites p n buf) = Unit {0}
Answer (flushes p n blocks size) = Unit {0}
Answer (creates p n) = Unit {0}
Answer (mkdirs p n) = Unit {0}
Answer (unlinks p n) = Unit {0}
Answer (rmdirs p n) = Bool
Answer (renames p n q m) = Unit {0}

abbrev pub run : (op : Operation) → Exec (Answer op)
run (writes p n offset buf) = write_range p n offset buf
run (truncates p n size) = truncate p n size
run (overwrites p n buf) = write p n buf
run (flushes p n blocks size) = write_blocks_batch p n blocks size
run (creates p n) = create p n
run (mkdirs p n) = mkdir p n
run (unlinks p n) = unlink p n
run (rmdirs p n) = rmdir p n
run (renames p n q m) = rename p n q m

-- `unlink` runs two statements outside of a transaction, and `write` runs two operations.
abbrev pub is_two_step : Operation → Bool
is_two_step (writes p n offset buf) = false
is_two_step (truncates p n size) = false
is_two_step (overwrites p n buf) = true
is_two_step (flushes p n blocks size) = false
is_two_step (creates p n) = false
is_two_step (mkdirs p n) = false
is_two_step (unlinks p n) = true
is_two_step (rmdirs p n) = false
is_two_step (renames p n q m) = false

-- Every operation of Db that changes the tables, but unlink and write, is all or nothing, whichever
-- statements fail: either it fails and the tables are as before, or the tables are those that it
-- leaves when no statement fails. These are create, mkdir, rmdir, rename, truncate, write_range and
-- write_blocks_batch.
pub run-AllOrNothing : (op : Operation) (s : Db) → is_two_step op ≡ false → AllOrNothing (run op) s
run-AllOrNothing (writes p n offset buf) s h = write_range-AllOrNothing p n offset buf s
run-AllOrNothing (truncates p n size) s h = truncate-AllOrNothing p n size s
run-AllOrNothing (overwrites p n buf) s h = absurd (ground (arith, h))
run-AllOrNothing (flushes p n blocks size) s h = write_blocks_batch-AllOrNothing p n blocks size s
run-AllOrNothing (creates p n) s h = create-AllOrNothing p n s
run-AllOrNothing (mkdirs p n) s h = mkdir-AllOrNothing p n s
run-AllOrNothing (unlinks p n) s h = absurd (ground (arith, h))
run-AllOrNothing (rmdirs p n) s h = rmdir-AllOrNothing p n s
run-AllOrNothing (renames p n q m) s h = rename-AllOrNothing p n q m s
