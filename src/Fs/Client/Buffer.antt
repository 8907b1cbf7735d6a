-- ===== src/Fs/Client/Buffer.antt =====
-- The buffer of a handle on a new file (src/fs.rs `HandleBuffer`), as the list of bytes that it stands
-- for, and its flush.
use pgfs.Prelude.{
  ℕ, ◌+◌, ◌^◌, ◌≤◌, ◌<◌, max, ◌≡◌, refl, sym, some, [], arith, Str, length, get_or, nat_key,
}
use pgfs.Dict.{get}
use pgfs.Block.{Bytes}
use pgfs.Handle
use pgfs.Handle.{HandleBuffer, block_of}
use pgfs.Handle.Write.{byte_at, IsMap, write-Buffers}
use pgfs.Db.Rows.{ok}
use pgfs.Db.Exec.{Db}
use pgfs.Db.Content.{write_blocks_batch}
use pgfs.Db.Content.Whole.{calm}
use pgfs.Db.Content.RoundTrip.{grown, row_to_meta-grown}
use pgfs.Db.Content.Batch.{write_blocks_batch-Flushes}
use pgfs.Db.Content.File.{write_at, Holds, length-write_at, get_or-write_at}
use pgfs.Fs.State.{fresh_handle}

-- The buffer, over a file of zeros, stands for the file `f` of the name.
pub record Buffered (p n : Str) (f : Bytes) (h : HandleBuffer) : Type 0 where
  pub parent : h.parent ≡ p
  pub name : h.name ≡ n
  pub keys : IsMap h.dirty_blocks
  pub size : h.max_size ≡ length f
  pub fits : length f ≤ 2 ^ 47
  pub at_byte : (i : ℕ) → byte_at h.dirty_blocks i ≡ get_or f i 0
  pub unused : length f ≡ 0 → h.dirty_blocks ≡ []

pub fresh_handle-Buffered : (p n : Str) → Buffered p n [] (fresh_handle p n)
unfolding block_of get
fresh_handle-Buffered p n = record {
  parent = refl;
  name = refl;
  keys = tt;
  size = refl;
  fits = omega arith;
  at_byte = λ i. refl;
  unused = λ e. refl;
}

module _ (p n : Str) (f : Bytes) (h : HandleBuffer) (b : Buffered p n f h) where
  pub write-Buffered :
      (offset : ℕ) (buf : Bytes)
      → 0 < length buf
      → offset + length buf ≤ 2 ^ 47
      → (h' : HandleBuffer) × (Handle.write offset buf h ≡ some h')
        × Buffered p n (write_at offset buf f) h'
  write-Buffered offset buf some_bytes fits =
      let (h', writes, w) = write-Buffers offset buf h fits in
      (
        h',
        writes,
        record {
          parent = ground (arith, w.same_parent, b.parent);
          name = ground (arith, w.same_name, b.name);
          keys = w.keys b.keys;
          size = ground (arith, w.size, b.size, length-write_at offset buf f some_bytes);
          fits = ground (arith, b.fits, length-write_at offset buf f some_bytes);
          at_byte = λ i. ground (arith, w.at_byte i, b.at_byte i, get_or-write_at offset buf f i);
          unused = λ e. absurd (omega (arith, e, length-write_at offset buf f some_bytes));
        },
      )

  -- A flush to an empty file makes it the file that the buffer stands for.
  pub flush-Holds :
      (s : Db)
      → 0 < h.max_size
      → Holds p n [] s
      → (s' : Db) × (write_blocks_batch p n h.dirty_blocks h.max_size (calm s) ≡ (ok tt, calm s'))
        × Holds p n f s'
  unfolding block_of
  flush-Holds s some_size empty =
      let r = empty.row in
      let m = empty.attributes in
      let (s', runs, w) =
        write_blocks_batch-Flushes p n h.dirty_blocks h.max_size some_size r m s b.keys empty.has in
      (
        s',
        runs,
        record {
          row = grown r h.max_size s.now;
          attributes = record m { size = max m.size h.max_size; mtime = s.now };
          has = record {
            found = w.entry;
            attributes =
                row_to_meta-grown r m h.max_size s.now empty.has.attributes
                  (omega (arith, b.size, b.fits));
            table = w.table;
          };
          is_file = empty.is_file;
          size = omega (arith, empty.size, b.size);
          fits = b.fits;
          at_byte = λ i small. ground (arith, w.at_byte i, b.at_byte i, empty.at_byte i small);
        },
      )

-- Only the tables matter.
pub Holds_same :
    (p n : Str) (f : Bytes) (s s' : Db) → s.tables ≡ s'.tables → Holds p n f s → Holds p n f s'
Holds_same p n f s s' e holds = record {
  row = holds.row;
  attributes = holds.attributes;
  has = record {
    found = rw (sym e) holds.has.found;
    attributes = holds.has.attributes;
    table = rw (sym e) holds.has.table;
  };
  is_file = holds.is_file;
  size = holds.size;
  fits = holds.fits;
  at_byte = λ i small. rw (sym e) (holds.at_byte i small);
}
