-- ===== src/Handle/Bound.antt =====
-- Where `HandleBuffer::write` (src/fs.rs) leaves the range of an `i32` block number.
use pgfs.Prelude.{
  ℕ, suc, ◌+◌, ◌-◌, ◌/◌, ◌^◌, ◌≤◌, ◌<◌, ◌≡◌, refl, none, [], ◌∷◌, arith, length, nat_key,
}
use pgfs.Dict.{Dict}
use pgfs.Block.{Bytes, block_size, chunk_of}
use pgfs.Handle.{HandleBuffer, write_block, write_rounds, write}

-- The first block number is negative as an `i32`, and the slice of the data has its ends exchanged.
chunk_of_beyond :
    (offset : ℕ) (buf : Bytes)
    → 2 ^ 47 ≤ offset
    → 0 < length buf
    → offset + length buf ≤ 2 ^ 48
    → chunk_of offset (offset + length buf) buf (offset / block_size) ≡ none
unfolding chunk_of
chunk_of_beyond offset buf h some_bytes fits = ground arith

write_rounds_beyond :
    (n offset : ℕ) (buf : Bytes) (blocks : Dict ℕ Bytes)
    → 2 ^ 47 ≤ offset
    → 0 < length buf
    → offset + length buf ≤ 2 ^ 48
    → write_rounds (suc n) offset (offset + length buf) buf (offset / block_size) blocks ≡ none
unfolding write_rounds write_block
write_rounds_beyond n offset buf blocks h some_bytes fits =
    rw (chunk_of_beyond offset buf h some_bytes fits, write_block, write_rounds) refl

-- A write of some bytes at an offset from 2^47 on, ending at most at 2^48, panics, whatever the
-- buffer holds.
pub write-beyond :
    (offset : ℕ) (buf : Bytes) (h : HandleBuffer)
    → 2 ^ 47 ≤ offset
    → 0 < length buf
    → offset + length buf ≤ 2 ^ 48
    → write offset buf h ≡ none
unfolding write
write-beyond offset [] h far some_bytes fits = absurd (omega arith)
write-beyond offset (x ∷ xs) h far some_bytes fits =
    let k : ℕ = (offset + length xs) / block_size - offset / block_size in
    ground (arith, write_rounds_beyond k offset (x ∷ xs) h.dirty_blocks far some_bytes fits)
