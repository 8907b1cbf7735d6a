-- ===== src/Block.antt =====
-- Fixed-size blocks of file data: what one round of the write loops computes (src/fs.rs
-- `HandleBuffer::write`, src/db.rs `Db::write_range`), which is the same text in both.
pub mod View
use pgfs.Prelude.{
  ℕ, ◌+◌, ◌/◌, min, max, Bool, Option, none, some, List, ltb, if◌then◌else◌, length, resize,
  copy_at, slice?, add64, sub64, mul64, as_i32, i32_as_u64,
}

abbrev pub Bytes : Type 0
Bytes = List ℕ

abbrev pub block_size : ℕ
block_size = 65536

-- The part of `buf[..]`, written at `offset` and ending before `end`, that falls into block `b_no`,
-- behind its offset in the block. `none` is the panic of the slice.
unfoldable pub chunk_of : ℕ → ℕ → Bytes → ℕ → Option (ℕ × Bytes)
unfolding slice?
chunk_of offset end buf b_no =
    let block_start = mul64 (i32_as_u64 b_no) block_size in
    let block_end = add64 block_start block_size in
    let write_start = max offset block_start in
    let write_end = min end block_end in
    elim (slice? buf (sub64 write_start offset) (sub64 write_end offset)) [
      | none ↦ none
      | some chunk ↦ some (sub64 write_start block_start, chunk)
    ]

-- Grow the block up to the end of the chunk, and copy the chunk in.
unfoldable pub patch : Bytes → ℕ → Bytes → Bytes
unfolding resize copy_at
patch block_data block_offset chunk =
    let need = block_offset + length chunk in
    copy_at (if ltb (length block_data) need then resize block_data need 0 else block_data)
      block_offset chunk
