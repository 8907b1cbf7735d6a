-- ===== src/Db/Content/Flush.antt =====
-- A write to a newly opened handle (src/fs.rs `HandleBuffer::write`), and its flush with
-- `Db::write_blocks_batch` (src/db.rs), where no statement fails.
use pgfs.Prelude.{
  ℕ, ◌+◌, ◌-◌, ◌/◌, ◌^◌, ◌≤◌, ◌<◌, ◌≡◌, true, false, ◌&&◌, some, arith, Str, length, get_or, leb,
  ltb, nat_key,
}
use pgfs.Dict.{get}
use pgfs.Block.{Bytes, block_size}
use pgfs.Handle
use pgfs.Handle.{HandleBuffer, block_of}
use pgfs.Handle.Write.{write-Buffers}
use pgfs.Db.Rows.{EntryRow, FileMeta, ok}
use pgfs.Db.Exec.{Db}
use pgfs.Db.Content.{write_blocks_batch}
use pgfs.Db.Content.Stored.{file_byte}
use pgfs.Db.Content.Whole.{calm, Has}
use pgfs.Db.Content.Batch.{write_blocks_batch-Flushes}
use pgfs.Fs.State.{fresh_handle}

-- What the file holds after `buf` was buffered at `offset` and flushed.
pub record Lands (p n : Str) (offset : ℕ) (buf : Bytes) (s' : Db) : Type 0 where
  pub inside :
      (i : ℕ)
      → (leb offset i && ltb i (offset + length buf)) ≡ true
      → file_byte p n s'.tables.blocks i ≡ get_or buf (i - offset) 0
  pub beside :
      (i j : ℕ)
      → (leb offset j && ltb j (offset + length buf)) ≡ true
      → i / block_size ≡ j / block_size
      → (leb offset i && ltb i (offset + length buf)) ≡ false
      → file_byte p n s'.tables.blocks i ≡ 0

-- Where no statement fails, a write of some bytes that end at most at 2^47 to a newly opened handle
-- is buffered, and its flush succeeds. Afterwards the file has the written bytes at their
-- positions, and 0 at every other position in the blocks that the write touches, whatever the file
-- held there before.
pub write_blocks_batch-write :
    (p n : Str) (offset : ℕ) (buf : Bytes) (r : EntryRow) (m : FileMeta) (s : Db)
    → 0 < length buf
    → offset + length buf ≤ 2 ^ 47
    → Has p n r m s
    → (h : HandleBuffer) × (Handle.write offset buf (fresh_handle p n) ≡ some h)
      × ((s' : Db) × (write_blocks_batch p n h.dirty_blocks h.max_size (calm s) ≡ (ok tt, calm s'))
          × Lands p n offset buf s')
unfolding block_of get
write_blocks_batch-write p n offset buf r m s some_bytes fits has =
    let (h, writes, w) = write-Buffers offset buf (fresh_handle p n) fits in
    let (s', runs, f) =
      write_blocks_batch-Flushes p n h.dirty_blocks h.max_size (ground (arith, w.size)) r m s
        (w.keys tt) has in
    (
      h,
      writes,
      (
        s',
        runs,
        record {
          inside = λ i e. ground (arith, f.at_byte i, w.at_byte i, w.held i e);
          beside = λ i j e same o. ground (arith, f.at_byte i, w.at_byte i, w.held j e, same);
        },
      ),
    )
