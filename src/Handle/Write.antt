-- ===== src/Handle/Write.antt =====
-- What `HandleBuffer.write` buffers, byte for byte.
use pgfs.Prelude.{
  ℕ, zero, suc, ◌+◌, ◌-◌, ◌*◌, ◌/◌, ◌%◌, ◌^◌, ◌≤◌, ◌<◌, max, ◌≡◌, refl, ◌&&◌, ◌||◌, Bool, true,
  false, Option, none, some, [], ◌∷◌, arith, length, get_or, ltb, leb, nat_beq, if◌then◌else◌,
  i32_rounds, u32_mod, nat_key,
}
use pgfs.Dict.{Dict, get, put, get-put}
use pgfs.Block.{Bytes, block_size, patch}
use pgfs.Block.View.{
  write_start, chunk, chunk_of_lem, length-chunk, get_or-chunk, get_or-patch, length-patch,
}
use pgfs.Handle.{HandleBuffer, block_of, write_block, write_rounds, write}

-- The byte at a position of the file, as the blocks hold it; 0 where they hold none.
abbrev pub byte_at : Dict ℕ Bytes → ℕ → ℕ
byte_at blocks i = get_or (block_of (i / block_size) blocks) (i % block_size) 0

-- No block is longer than `block_size`.
abbrev pub IsBounded : Dict ℕ Bytes → Type 0
IsBounded blocks = (k : ℕ) → length (block_of k blocks) ≤ block_size

-- The keys of a map of blocks are different, and each is an `i32`.
abbrev pub IsMap : Dict ℕ Bytes → Type 0
IsMap [] = Unit {0}
IsMap ((k, v) ∷ m) = (get k m ≡ none) × (k < u32_mod) × IsMap m

abbrev pub is_some : Option Bytes → Bool
is_some none = false
is_some (some b) = true

if-IsMap :
    (c : Bool) (x y : Dict ℕ Bytes)
    → (c ≡ true → IsMap x)
    → (c ≡ false → IsMap y)
    → IsMap (if c then x else y)
if-IsMap true x y h k = h refl
if-IsMap false x y h k = k refl

put-IsMap : (k : ℕ) (v : Bytes) (m : Dict ℕ Bytes) → k < u32_mod → IsMap m → IsMap (put k v m)
unfolding put get
put-IsMap k v [] small t = (refl, small, tt)
put-IsMap k v ((j, w) ∷ m) small (new, i32, t) =
    if-IsMap (nat_beq j k) ((k, v) ∷ m) ((j, w) ∷ put k v m)
      (λ e. (ground (arith, new, e), small, t))
      λ e. (ground (arith, new, e, get-put k j v m), i32, put-IsMap k v m small t)

-- What a write keeps of the map's keys, and which it adds.
record Kept (b n : ℕ) (blocks blocks' : Dict ℕ Bytes) : Type 0 where
  pub bounded : IsBounded blocks → IsBounded blocks'
  pub keys : IsMap blocks → IsMap blocks'
  pub held :
      (k : ℕ) → is_some (get k blocks') ≡ (leb b k && ltb k (b + n) || is_some (get k blocks))

block_of-put :
    (k j : ℕ) (v : Bytes) (m : Dict ℕ Bytes)
    → block_of j (put k v m) ≡ (if nat_beq k j then v else block_of j m)
unfolding block_of
block_of-put k j v m = ground (arith, get-put k j v m)

module _ (offset : ℕ) (buf : Bytes) (fits : offset + length buf ≤ 2 ^ 47) where
  abbrev end : ℕ
  end = offset + length buf

  -- The bytes of `blocks`, but those of `buf` at the positions of `buf` in blocks `b` to `b + n - 1`.
  abbrev Spliced : ℕ → ℕ → Dict ℕ Bytes → Dict ℕ Bytes → Type 0
  Spliced b n blocks blocks' =
      (i : ℕ)
      → byte_at blocks' i ≡ (
          if (leb b (i / block_size) && ltb (i / block_size) (b + n)) && (leb offset i && ltb i end)
          then get_or buf (i - offset) 0
          else byte_at blocks i)

  module _ (b : ℕ) (starts : b * block_size < end)
      (ends : offset < b * block_size + block_size) where
    abbrev after_block : Dict ℕ Bytes → Dict ℕ Bytes
    after_block blocks =
        put b
          (patch (block_of b blocks) (write_start offset buf b fits - b * block_size)
            (chunk offset buf b fits))
          blocks

    write_block_lem :
        (blocks : Dict ℕ Bytes) → write_block offset end buf b blocks ≡ some (after_block blocks)
    unfolding write_block
    write_block_lem blocks = rw (chunk_of_lem offset buf b fits starts ends, write_block)

    after_block-Spliced : (blocks : Dict ℕ Bytes) → Spliced b 1 blocks (after_block blocks)
    after_block-Spliced blocks i = ground (
      arith,
      block_of-put b (i / block_size)
          (patch (block_of b blocks) (write_start offset buf b fits - b * block_size)
            (chunk offset buf b fits))
          blocks,
      get_or-patch (block_of b blocks) (write_start offset buf b fits - b * block_size)
          (chunk offset buf b fits) (i % block_size),
      length-chunk offset buf b fits starts ends,
      get_or-chunk offset buf b fits
          (i % block_size - (write_start offset buf b fits - b * block_size)),
    )

    after_block-IsBounded :
        (blocks : Dict ℕ Bytes) → IsBounded blocks → IsBounded (after_block blocks)
    after_block-IsBounded blocks bounded k = ground (
      arith,
      bounded k,
      bounded b,
      block_of-put b k
          (patch (block_of b blocks) (write_start offset buf b fits - b * block_size)
            (chunk offset buf b fits))
          blocks,
      length-patch (block_of b blocks) (write_start offset buf b fits - b * block_size)
          (chunk offset buf b fits),
      length-chunk offset buf b fits starts ends,
    )

  write_rounds_lem :
      (n b : ℕ) (blocks : Dict ℕ Bytes)
      → offset < b * block_size + block_size
      → (b + n) * block_size < end + block_size
      → (blocks' : Dict ℕ Bytes) × (write_rounds n offset end buf b blocks ≡ some blocks')
        × Spliced b n blocks blocks'
        × Kept b n blocks blocks'
  unfolding write_rounds
  write_rounds_lem zero b blocks h k = (
    blocks,
    refl,
    (λ i. ground arith),
    record { bounded = λ h. h; keys = λ h. h; held = λ k. ground arith },
  )
  write_rounds_lem (suc n) b blocks h k =
      let starts : b * block_size < end = omega arith in
      let (final, runs, spliced, keeps) =
        write_rounds_lem n ((b + 1) % u32_mod) (after_block b starts h blocks) (omega arith)
          (omega arith) in
      (
        final,
        rw (write_block_lem b starts h blocks, write_rounds) runs,
        λ i. ground (arith, spliced i, after_block-Spliced b starts h blocks i),
        record {
          bounded = λ g. keeps.bounded (after_block-IsBounded b starts h blocks g);
          keys = λ g. keeps.keys (put-IsMap b _ blocks (omega arith) g);
          held = λ j. ground (
            arith,
            keeps.held j,
            get-put b j
                (patch (block_of b blocks) (write_start offset buf b fits - b * block_size)
                  (chunk offset buf b fits))
                blocks,
          );
        },
      )

rounds_lem : (s e : ℕ) → s ≤ e → e < 2 ^ 31 → i32_rounds s e ≡ e - s + 1
rounds_lem s e h k = ground arith

-- The size that a buffer asks for after a write.
abbrev pub grown : ℕ → Bytes → ℕ → ℕ
grown offset buf size = if nat_beq (length buf) 0 then size else max size (offset + length buf)

-- What it means that `h'` is the buffer `h` with `buf` written at `offset`.
pub record Buffers (offset : ℕ) (buf : Bytes) (h h' : HandleBuffer) : Type 0 where
  pub same_parent : h'.parent ≡ h.parent
  pub same_name : h'.name ≡ h.name
  pub size : h'.max_size ≡ grown offset buf h.max_size
  pub at_byte :
      (i : ℕ)
      → byte_at h'.dirty_blocks i ≡ (
          if leb offset i && ltb i (offset + length buf)
          then get_or buf (i - offset) 0
          else byte_at h.dirty_blocks i)
  pub bounded : IsBounded h.dirty_blocks → IsBounded h'.dirty_blocks
  pub keys : IsMap h.dirty_blocks → IsMap h'.dirty_blocks
  pub held :
      (i : ℕ)
      → leb offset i && ltb i (offset + length buf) ≡ true
      → is_some (get (i / block_size) h'.dirty_blocks) ≡ true

-- For such a write the numbers of the loop do not wrap.
write_runs :
    (offset x : ℕ) (xs : Bytes) (h : HandleBuffer) (blocks : Dict ℕ Bytes)
    → offset + suc (length xs) ≤ 2 ^ 47
    → write_rounds
        ((offset + length xs) / block_size - offset / block_size + 1)
        offset
        (offset + suc (length xs))
        (x ∷ xs)
        (offset / block_size)
        h.dirty_blocks
      ≡ some blocks
    → write offset (x ∷ xs) h
      ≡ some
          (record h { dirty_blocks = blocks; max_size = max h.max_size (offset + suc (length xs)) })
unfolding write
write_runs offset x xs h blocks fits runs = ground arith

-- A write that ends at most at 2^47 does not panic, whatever the buffer holds. Afterwards the buffer
-- has the written bytes at their positions and its former bytes at all others, its size is the
-- larger of the former one and the end of the write (the former one if nothing is written), its
-- path is the former one, its blocks stay within the block size if they were, its keys stay
-- different if they were, and it holds the block of every written byte.
pub write-Buffers :
    (offset : ℕ) (buf : Bytes) (h : HandleBuffer)
    → offset + length buf ≤ 2 ^ 47
    → (h' : HandleBuffer) × (write offset buf h ≡ some h') × Buffers offset buf h h'
unfolding write
write-Buffers offset [] h fits = (
  h,
  refl,
  record {
    same_parent = refl;
    same_name = refl;
    size = refl;
    at_byte = λ i. ground arith;
    bounded = λ b. b;
    keys = λ b. b;
    held = λ i e. absurd (ground arith);
  },
)
write-Buffers offset (x ∷ xs) h fits =
    let s : ℕ = offset / block_size in
    let e : ℕ = (offset + length xs) / block_size in
    let (blocks, runs, spliced, keeps) =
      write_rounds_lem offset (x ∷ xs) fits (e - s + 1) s h.dirty_blocks (omega arith)
        (omega arith) in
    (
      record h { dirty_blocks = blocks; max_size = max h.max_size (offset + suc (length xs)) },
      write_runs offset x xs h blocks fits runs,
      record {
        same_parent = refl;
        same_name = refl;
        size = ground arith;
        at_byte = λ i. ground (arith, spliced i);
        bounded = keeps.bounded;
        keys = keeps.keys;
        held = λ i j. ground (arith, keeps.held (i / block_size));
      },
    )
