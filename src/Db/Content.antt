-- ===== src/Db/Content.antt =====
-- File contents (src/db.rs): reads, writes and truncation of a file's blocks.
pub mod Assemble
pub mod Stored
pub mod Writing
pub mod Whole
pub mod RoundTrip
pub mod Batch
pub mod Flush
pub mod Shrink
pub mod Truncate
pub mod File
pub mod Edits
pub mod Stale
use pgfs.Prelude.{
  ℕ, zero, suc, ◌+◌, ◌-◌, ◌/◌, ◌%◌, min, max, Bool, true, false, ◌&&◌, ◌||◌, Option, none, some,
  List, [], ◌∷◌, ◌++◌, Str, ltb, leb, nat_beq, nat_key, if◌then◌else◌, length, take, drop,
  replicate, add64, sub64, mul64, as_i32, i32_as_u64, i32_rounds, u32_mod, u64_mod,
}
use pgfs.Dict.{Dict, get, put}
use pgfs.Block.{Bytes, block_size, chunk_of, patch}
use pgfs.Db.Rows.{
  file, dir, FileMeta, BlockRow, not_a_file, read_blocks, upsert_block, prune_blocks, update_size,
}
use pgfs.Db.Exec.{Exec, pure, raise, unwrap, gets, query, update, transaction, ◌>>=◌, ◌>>◌}
use pgfs.Db.Replica.{getattr_primary, record_replica_fallback_if_configured}

-- The rows of a query, in a `HashMap` by their block number.
unfoldable pub collect : List BlockRow → Dict ℕ Bytes → Dict ℕ Bytes
unfolding put
collect [] blocks = blocks
collect (r ∷ rs) blocks = collect rs (put r.block_no r.bytes blocks)

-- What one round of the loop of `read_range_primary` appends to the result.
unfoldable pub piece : Option Bytes → ℕ → ℕ → Bytes
piece none block_offset bytes_in_block = replicate bytes_in_block 0
piece (some b_data) block_offset bytes_in_block =
    let slice_end = min (block_offset + bytes_in_block) (length b_data) in
    if ltb block_offset (length b_data)
    then take (slice_end - block_offset) (drop block_offset b_data)
      ++ replicate (block_offset + bytes_in_block - slice_end) 0
    else replicate bytes_in_block 0

-- The loop of `read_range_primary` from `current_offset` on; `none` means that the fuel ran out.
unfoldable pub assemble : ℕ → Dict ℕ Bytes → ℕ → ℕ → Option Bytes
unfolding piece get
assemble zero blocks current_offset end_offset = none
assemble (suc fuel) blocks current_offset end_offset =
    let block_no = as_i32 (current_offset / block_size) in
    let block_start = mul64 (i32_as_u64 block_no) block_size in
    let block_offset = sub64 current_offset block_start in
    let bytes_in_block = sub64 (min (add64 block_start block_size) end_offset) current_offset in
    let rest = assemble fuel blocks (add64 current_offset bytes_in_block) end_offset in
    if ltb current_offset end_offset
    then elim rest [
      | none ↦ none
      | some bytes ↦ some (piece (get block_no blocks) block_offset bytes_in_block ++ bytes)
    ]
    else some []

abbrev pub read_fuel : ℕ → ℕ
read_fuel actual_len = actual_len / block_size + 3

unfoldable pub read_file : Str → Str → ℕ → ℕ → FileMeta → Exec (Option Bytes)
unfolding query read_blocks collect assemble
read_file parent name offset len meta =
    let actual_len = min len (meta.size - offset) in
    if leb meta.size offset || nat_beq actual_len 0 then pure (some []) else do
      rows ← query (λ t.
          read_blocks parent name (as_i32 (offset / block_size))
            (as_i32 (sub64 (add64 offset actual_len) 1 / block_size)) t.blocks)
      bytes ←
          unwrap
            (assemble (read_fuel actual_len) (collect rows []) offset (add64 offset actual_len))
      pure (some bytes)

unfoldable pub read_meta : Str → Str → ℕ → ℕ → Option FileMeta → Exec (Option Bytes)
unfolding read_file
read_meta parent name offset len none = pure none
read_meta parent name offset len (some m) = elim m.kind [
  | file ↦ read_file parent name offset len m
  | dir ↦ pure none
]

unfoldable pub read_range_primary : Str → Str → ℕ → ℕ → Exec (Option Bytes)
unfolding read_meta getattr_primary
read_range_primary parent name offset len = do
  meta ← getattr_primary parent name
  read_meta parent name offset len meta

unfoldable pub read_range : Str → Str → ℕ → ℕ → Exec (Option Bytes)
unfolding read_range_primary record_replica_fallback_if_configured
read_range parent name offset len = do
  record_replica_fallback_if_configured
  read_range_primary parent name offset len

-- `rows.first()`, and the empty block if there is no row
unfoldable pub first_bytes : List BlockRow → Bytes
first_bytes [] = []
first_bytes (r ∷ rs) = r.bytes

-- One round of the loop of `write_range`. A block that is wholly overwritten is not read.
unfoldable pub write_block : Str → Str → ℕ → ℕ → Bytes → ℕ → Exec (Unit {0})
unfolding query update chunk_of patch read_blocks first_bytes upsert_block
write_block parent name offset end buf b_no = do
  (block_offset, chunk) ← unwrap (chunk_of offset end buf b_no)
  block_data ←
      if ltb 0 block_offset || ltb (length chunk) block_size
      then query (λ t. first_bytes (read_blocks parent name b_no b_no t.blocks))
      else pure []
  update (λ t. record t {
    blocks = upsert_block parent name b_no (patch block_data block_offset chunk) t.blocks;
  })

unfoldable pub write_rounds : ℕ → Str → Str → ℕ → ℕ → Bytes → ℕ → Exec (Unit {0})
unfolding write_block
write_rounds zero parent name offset end buf b_no = pure tt
write_rounds (suc n) parent name offset end buf b_no = do
  write_block parent name offset end buf b_no
  write_rounds n parent name offset end buf ((b_no + 1) % u32_mod)

abbrev pub size_or_zero : Option FileMeta → ℕ
size_or_zero none = 0
size_or_zero (some m) = m.size

-- UPDATE entries SET size = $3, mtime = now() …
unfoldable pub set_size : Str → Str → ℕ → Exec (Unit {0})
unfolding update update_size
set_size parent name size = do
  now ← gets (λ s. s.now)
  update (λ t. record t { entries = update_size parent name size now t.entries })

unfoldable pub write_range : Str → Str → ℕ → Bytes → Exec (Unit {0})
unfolding getattr_primary transaction write_rounds set_size
write_range parent name offset [] = pure tt
write_range parent name offset (x ∷ xs) = do
  meta ← getattr_primary parent name
  transaction (do
    let end = add64 offset (length (x ∷ xs))
    let start_block = as_i32 (offset / block_size)
    let end_block = as_i32 (sub64 end 1 / block_size)
    write_rounds (i32_rounds start_block end_block) parent name offset end (x ∷ xs) start_block
    set_size parent name (max (size_or_zero meta) end))

abbrev pub patch_boundary : Str → Str → ℕ → ℕ → List BlockRow → Exec (Unit {0})
patch_boundary parent name last_valid_block block_rem [] = pure tt
patch_boundary parent name last_valid_block block_rem (r ∷ rs) = update (λ t. record t {
  blocks = upsert_block parent name last_valid_block (take block_rem r.bytes) t.blocks;
})

-- The statements of `truncate` that a smaller size needs.
unfoldable pub shrink : Str → Str → ℕ → Exec (Unit {0})
unfolding query update prune_blocks read_blocks upsert_block
shrink parent name new_size = do
  let last_valid_block = as_i32 (new_size / block_size)
  let block_rem = new_size % block_size
  update (λ t. record t { blocks = prune_blocks parent name last_valid_block t.blocks })
  if ltb 0 block_rem
      then (do
        rows ← query (λ t. read_blocks parent name last_valid_block last_valid_block t.blocks)
        patch_boundary parent name last_valid_block block_rem rows)
      else pure tt

unfoldable pub truncate_meta : Str → Str → ℕ → Option FileMeta → Exec (Unit {0})
unfolding transaction shrink set_size
truncate_meta parent name new_size none = raise not_a_file
truncate_meta parent name new_size (some m) = elim m.kind [
  | dir ↦ raise not_a_file
  | file ↦ transaction (do
    if ltb new_size m.size then shrink parent name new_size else pure tt
    set_size parent name new_size)
]

unfoldable pub truncate : Str → Str → ℕ → Exec (Unit {0})
unfolding getattr_primary truncate_meta
truncate parent name new_size = do
  meta ← getattr_primary parent name
  truncate_meta parent name new_size meta

unfoldable pub upsert_all : Str → Str → Dict ℕ Bytes → Exec (Unit {0})
unfolding update upsert_block
upsert_all parent name [] = pure tt
upsert_all parent name ((b_no, block_data) ∷ blocks) = do
  update (λ t. record t { blocks = upsert_block parent name b_no block_data t.blocks })
  upsert_all parent name blocks

abbrev pub is_empty {ℓ} : {A : Type ℓ} → List A → Bool
is_empty [] = true
is_empty (x ∷ xs) = false

unfoldable pub write_blocks_batch : Str → Str → Dict ℕ Bytes → ℕ → Exec (Unit {0})
unfolding getattr_primary transaction upsert_all set_size
write_blocks_batch parent name blocks new_size =
    if is_empty blocks && nat_beq new_size 0 then pure tt else do
      meta ← if ltb 0 new_size then getattr_primary parent name else pure none
      transaction (do
        upsert_all parent name blocks
        if ltb 0 new_size then set_size parent name (max (size_or_zero meta) new_size) else pure tt)

-- `read`, `read_primary` and `write`: whole files.
unfoldable pub read : Str → Str → Exec (Option Bytes)
unfolding read_range
read parent name = read_range parent name 0 (u64_mod - 1)

unfoldable pub read_primary : Str → Str → Exec (Option Bytes)
unfolding read_range_primary
read_primary parent name = read_range_primary parent name 0 (u64_mod - 1)

unfoldable pub write : Str → Str → Bytes → Exec (Unit {0})
unfolding truncate write_range
write parent name buf = do truncate parent name 0; write_range parent name 0 buf
