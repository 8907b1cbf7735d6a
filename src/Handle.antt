-- ===== src/Handle.antt =====
-- The write buffer of an open file handle (src/fs.rs `HandleBuffer`).
pub mod Write
pub mod Bound
use pgfs.Prelude.{
  ℕ, zero, suc, ◌+◌, ◌/◌, ◌%◌, max, Option, none, some, List, [], ◌∷◌, length, Str, add64, sub64,
  as_i32, i32_rounds, u32_mod, nat_key,
}
use pgfs.Dict.{Dict, get, put}
use pgfs.Block.{Bytes, block_size, chunk_of, patch}

pub record HandleBuffer : Type 0 where
  pub parent : Str
  pub name : Str
  pub dirty_blocks : Dict ℕ Bytes
  pub max_size : ℕ

-- `dirty_blocks.entry(b_no).or_default()`
unfoldable pub block_of : ℕ → Dict ℕ Bytes → Bytes
unfolding get
block_of b_no blocks = elim (get b_no blocks) [ none ↦ [] | some block_data ↦ block_data ]

-- One round of the loop of `write`.
unfoldable pub write_block : ℕ → ℕ → Bytes → ℕ → Dict ℕ Bytes → Option (Dict ℕ Bytes)
unfolding block_of put chunk_of patch
write_block offset end buf b_no blocks = elim (chunk_of offset end buf b_no) [
  | none ↦ none
  | some (block_offset, chunk) ↦
      some (put b_no (patch (block_of b_no blocks) block_offset chunk) blocks)
]

-- The rounds that are left, from block `b_no` on.
unfoldable pub write_rounds : ℕ → ℕ → ℕ → Bytes → ℕ → Dict ℕ Bytes → Option (Dict ℕ Bytes)
unfolding write_block
write_rounds zero offset end buf b_no blocks = some blocks
write_rounds (suc n) offset end buf b_no blocks = elim (write_block offset end buf b_no blocks) [
  | none ↦ none
  | some blocks' ↦ write_rounds n offset end buf ((b_no + 1) % u32_mod) blocks'
]

-- `HandleBuffer::write`; `none` is a panic.
unfoldable pub write : ℕ → Bytes → HandleBuffer → Option HandleBuffer
write offset [] h = some h
write offset (x ∷ xs) h =
    let end = add64 offset (length (x ∷ xs)) in
    let start_block = as_i32 (offset / block_size) in
    let end_block = as_i32 (sub64 end 1 / block_size) in
    elim (write_rounds (i32_rounds start_block end_block) offset end (x ∷ xs) start_block
      h.dirty_blocks) [
        | none ↦ none
        | some blocks ↦ some (record h { dirty_blocks = blocks; max_size = max h.max_size end })
      ]
