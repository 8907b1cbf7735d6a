-- ===== src/Block/View.antt =====
-- Blocks as the bytes that they stand for: what is not stored reads as 0.
use pgfs.Prelude.{
  ℕ, ◌+◌, ◌-◌, ◌*◌, ◌^◌, ◌≤◌, ◌<◌, min, max, ◌≡◌, ◌∙◌, ◌&&◌, some, arith, ltb, leb, if◌then◌else◌,
  length, resize, get_or, take, drop, slice?, length-resize, length-copy_at, length-take_le,
  length-drop, get_or-resize, get_or-copy_at, get_or-past, get_or-take, get_or-drop,
}
use pgfs.Block.{Bytes, block_size, chunk_of, patch}

module _ (b : Bytes) (k : ℕ) (c : Bytes) where
  pub length-patch : length (patch b k c) ≡ max (length b) (k + length c)
  unfolding patch
  length-patch = ground (
    arith,
    length-copy_at (resize b (k + length c) 0) k c,
    length-copy_at b k c,
    length-resize b (k + length c) 0,
  )

  pub get_or-patch :
      (i : ℕ)
      → get_or (patch b k c) i 0
        ≡ (if leb k i && ltb i (k + length c) then get_or c (i - k) 0 else get_or b i 0)
  unfolding patch
  get_or-patch i = ground (
    arith,
    get_or-copy_at 0 (resize b (k + length c) 0) k c i,
    get_or-copy_at 0 b k c i,
    get_or-resize 0 b (k + length c) i,
    length-resize b (k + length c) 0,
    get_or-past 0 b i,
  )

-- The slice of the data that falls into block `b`, for offsets that an `i32` block number can reach.
module _ (offset : ℕ) (buf : Bytes) (b : ℕ) (fits : offset + length buf ≤ 2 ^ 47) where
  abbrev pub write_start : ℕ
  write_start = max offset (b * block_size)

  abbrev pub write_end : ℕ
  write_end = min (offset + length buf) (b * block_size + block_size)

  abbrev pub chunk : Bytes
  chunk = take (write_end - write_start) (drop (write_start - offset) buf)

  pub chunk_of_lem :
      b * block_size < offset + length buf
      → offset < b * block_size + block_size
      → chunk_of offset (offset + length buf) buf b ≡ some (write_start - b * block_size, chunk)
  unfolding chunk_of slice?
  chunk_of_lem h k = ground arith

  pub length-chunk :
      b * block_size < offset + length buf
      → offset < b * block_size + block_size
      → length chunk ≡ write_end - write_start
  length-chunk h k =
      length-take_le _ (drop (write_start - offset) buf)
        (omega (arith, length-drop {0} (write_start - offset) buf))

  pub get_or-chunk :
      (i : ℕ)
      → i < write_end - write_start
      → get_or chunk i 0 ≡ get_or buf (write_start - offset + i) 0
  get_or-chunk i h =
      get_or-take 0 _ (drop (write_start - offset) buf) i h
      ∙ get_or-drop 0 (write_start - offset) buf i
