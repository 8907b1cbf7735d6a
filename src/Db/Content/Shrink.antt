-- ===== src/Db/Content/Shrink.antt =====
-- The statements of `Db::truncate` (src/db.rs) that a smaller size needs, where none of them fails.
use pgfs.Prelude.{
  ℕ, ◌/◌, ◌%◌, ◌^◌, ◌<◌, ◌≡◌, refl, Bool, true, false, not, ◌&&◌, ◌||◌, Option, some, none, List,
  [], ◌∷◌, arith, Str, take, get_or, get_or-take_if, ltb, nat_beq, if◌then◌else◌, i32_leb, as_i32,
  u32_mod, nat_key, str_key, ◌==◌,
}
use pgfs.Block.{Bytes, block_size}
use pgfs.Db.Rows.{BlockRow, ok, read_blocks, upsert_block, prune_blocks, is_block_of, insert_by_no}
use pgfs.Db.Exec.{Db, query, update, execute, pure, ◌>>=◌}
use pgfs.Db.Content.{shrink, patch_boundary}
use pgfs.Db.Content.Assemble.{bytes_or_empty}
use pgfs.Db.Content.Stored.{
  stored, IsTable, file_byte, stored-upsert_block, upsert_block-IsTable, read_blocks-none,
  if-IsTable,
}
use pgfs.Db.Content.Writing.{with_rows}

-- DELETE … WHERE block_no > $3
pub stored-prune_blocks :
    (p n : Str) (last : ℕ) (q m : Str) (k : ℕ) (rows : List BlockRow)
    → stored q m k (prune_blocks p n last rows)
      ≡ (if (p == q && n == m) && not (i32_leb k last) then none else stored q m k rows)
unfolding prune_blocks
stored-prune_blocks p n last q m k [] = ground arith
stored-prune_blocks p n last q m k (r ∷ rs) = ground (
  arith,
  stored-prune_blocks p n last q m k rs,
  str_key.same_iff r.parent p,
  str_key.same_iff r.name n,
  str_key.same_iff r.parent q,
  str_key.same_iff r.name m,
  str_key.same_iff p q,
  str_key.same_iff n m,
)

pub prune_blocks-IsTable :
    (p n : Str) (last : ℕ) (rows : List BlockRow)
    → IsTable rows
    → IsTable (prune_blocks p n last rows)
unfolding prune_blocks
prune_blocks-IsTable p n last [] t = tt
prune_blocks-IsTable p n last (r ∷ rs) (h, i32, t) =
    if-IsTable (not (is_block_of p n r && not (i32_leb r.block_no last)))
      (r ∷ prune_blocks p n last rs) (prune_blocks p n last rs)
      (λ e. (
        ground (arith, h, stored-prune_blocks p n last r.parent r.name r.block_no rs),
        i32,
        prune_blocks-IsTable p n last rs t,
      ))
      (λ e. prune_blocks-IsTable p n last rs t)

-- The row of a block.
abbrev pub row_of : Str → Str → ℕ → List BlockRow → Option BlockRow
row_of p n b [] = none
row_of p n b (r ∷ rs) =
    let rest = row_of p n b rs in if is_block_of p n r && nat_beq r.block_no b then some r else rest

abbrev bytes_of : Option BlockRow → Option Bytes
bytes_of none = none
bytes_of (some r) = some r.bytes

abbrev rows_of : Option BlockRow → List BlockRow
rows_of none = []
rows_of (some r) = r ∷ []

abbrev cut : ℕ → Option Bytes → Option Bytes
cut rem none = none
cut rem (some d) = some (take rem d)

module _ (p n : Str) (b : ℕ) where
  stored_lem : (rows : List BlockRow) → stored p n b rows ≡ bytes_of (row_of p n b rows)
  stored_lem [] = refl
  stored_lem (r ∷ rs) = ground (arith, stored_lem rs)

  read_blocks_lem :
      b < 2 ^ 31
      → (rows : List BlockRow) → IsTable rows
      → read_blocks p n b b rows ≡ rows_of (row_of p n b rows)
  unfolding read_blocks insert_by_no
  read_blocks_lem small [] t = refl
  read_blocks_lem small (r ∷ rs) (h, i32, t) = ground (
    arith,
    h,
    read_blocks_lem small rs t,
    read_blocks-none p n b small rs t,
    str_key.same_iff r.parent p,
    str_key.same_iff r.name n,
  )

  -- The boundary block, cut to `rem` bytes if there is one.
  abbrev pub patched : ℕ → Option BlockRow → List BlockRow → List BlockRow
  patched rem none rows = rows
  patched rem (some r) rows = upsert_block p n b (take rem r.bytes) rows

  patch_boundary_lem :
      (rem : ℕ) (o : Option BlockRow) (s : Db) (rows : List BlockRow)
      → patch_boundary p n b rem (rows_of o) (with_rows s rows)
        ≡ (ok tt, with_rows s (patched rem o rows))
  unfolding update execute
  patch_boundary_lem rem none s rows = refl
  patch_boundary_lem rem (some r) s rows = refl

  patched-IsTable :
      (rem : ℕ) (o : Option BlockRow) (rows : List BlockRow)
      → b < u32_mod
      → IsTable rows
      → IsTable (patched rem o rows)
  patched-IsTable rem none rows small t = t
  patched-IsTable rem (some r) rows small t =
      upsert_block-IsTable p n b (take rem r.bytes) rows small t

  stored-patched :
      (rem : ℕ) (o : Option BlockRow) (q m : Str) (k : ℕ) (rows : List BlockRow)
      → row_of p n b rows ≡ o
      → stored q m k (patched rem o rows) ≡ (
          if (p == q && n == m) && nat_beq b k
          then cut rem (stored p n b rows)
          else stored q m k rows)
  stored-patched rem none q m k rows e =
      ground (arith, stored_lem rows, str_key.same_iff p q, str_key.same_iff n m)
  stored-patched rem (some r) q m k rows e =
      ground (arith, stored_lem rows, stored-upsert_block p n b (take rem r.bytes) q m k rows)

get_or-cut :
    (rem : ℕ) (o : Option Bytes) (j : ℕ)
    → get_or (bytes_or_empty (cut rem o)) j 0
      ≡ (if ltb j rem then get_or (bytes_or_empty o) j 0 else 0)
get_or-cut rem none j = ground arith
get_or-cut rem (some d) j = get_or-take_if 0 rem d j

-- The rows after the statements of `truncate` that a smaller size needs.
abbrev pub shrunk : Str → Str → ℕ → List BlockRow → List BlockRow
shrunk p n size rows =
    let last : ℕ = size / block_size in
    let kept = prune_blocks p n last rows in
    if ltb 0 (size % block_size)
    then patched p n last (size % block_size) (row_of p n last kept) kept
    else kept

shrink_if :
    (p n : Str) (last rem : ℕ) (s : Db) (rows : List BlockRow)
    → last < 2 ^ 31
    → IsTable rows
    → (c : Bool)
    → (if c
          then (query (λ t. read_blocks p n last last t.blocks) >>= λ rs.
              patch_boundary p n last rem rs)
          else pure tt)
        (with_rows s rows)
      ≡ (ok tt, with_rows s (if c then patched p n last rem (row_of p n last rows) rows else rows))
unfolding query execute
shrink_if p n last rem s rows small t true =
    rw (read_blocks_lem p n last small rows t)
      (patch_boundary_lem p n last rem (row_of p n last rows) s rows)
shrink_if p n last rem s rows small t false = refl

pub shrink_lem :
    (p n : Str) (size : ℕ) (s : Db) (rows : List BlockRow)
    → size < 2 ^ 47
    → IsTable rows
    → shrink p n size (with_rows s rows) ≡ (ok tt, with_rows s (shrunk p n size rows))
unfolding shrink update execute
shrink_lem p n size s rows fits t =
    let last : as_i32 (size / block_size) ≡ size / block_size = ground arith in
    rw last (
      shrink_if p n (size / block_size) (size % block_size) s
        (prune_blocks p n (size / block_size) rows) (omega arith)
        (prune_blocks-IsTable p n (size / block_size) rows t) (ltb 0 (size % block_size)))

pub shrunk-IsTable :
    (p n : Str) (size : ℕ) (rows : List BlockRow)
    → size < 2 ^ 47
    → IsTable rows
    → IsTable (shrunk p n size rows)
shrunk-IsTable p n size rows fits t =
    let last : ℕ = size / block_size in
    let kept = prune_blocks p n last rows in
    let table = prune_blocks-IsTable p n last rows t in
    if-IsTable (ltb 0 (size % block_size))
      (patched p n last (size % block_size) (row_of p n last kept) kept) kept
      (λ e.
        patched-IsTable p n last (size % block_size) (row_of p n last kept) kept (omega arith)
          table)
      (λ e. table)

pub stored-shrunk :
    (p n : Str) (size : ℕ) (q m : Str) (k : ℕ) (rows : List BlockRow)
    → stored q m k (shrunk p n size rows) ≡ (
        if (p == q && n == m) && (nat_beq (size / block_size) k && ltb 0 (size % block_size))
        then cut
            (size % block_size)
            (stored p n (size / block_size) (prune_blocks p n (size / block_size) rows))
        else stored q m k (prune_blocks p n (size / block_size) rows))
stored-shrunk p n size q m k rows =
    let last : ℕ = size / block_size in
    let kept = prune_blocks p n last rows in
    ground
      (arith, stored-patched p n last (size % block_size) (row_of p n last kept) q m k kept refl)

-- Where the position `i` lies in the block that a truncation to `size` keeps as it is.
abbrev pub in_kept_block : ℕ → ℕ → Bool
in_kept_block size i = nat_beq (size % block_size) 0 && nat_beq (i / block_size) (size / block_size)

pub file_byte-shrunk :
    (p n : Str) (size i : ℕ) (rows : List BlockRow)
    → size < 2 ^ 47
    → i < 2 ^ 47
    → file_byte p n (shrunk p n size rows) i
      ≡ (if ltb i size || in_kept_block size i then file_byte p n rows i else 0)
file_byte-shrunk p n size i rows fits small = ground (
  arith,
  str_key.same_iff p p,
  str_key.same_iff n n,
  stored-shrunk p n size p n (i / block_size) rows,
  stored-prune_blocks p n (size / block_size) p n (i / block_size) rows,
  stored-prune_blocks p n (size / block_size) p n (size / block_size) rows,
  get_or-cut (size % block_size) (stored p n (size / block_size) rows) (i % block_size),
)
