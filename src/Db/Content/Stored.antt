-- ===== src/Db/Content/Stored.antt =====
-- The table `blocks` as a map from block numbers to data, and the query of `Db::read_range_primary`
-- (src/db.rs) as a lookup in it.
use pgfs.Prelude.{
  ℕ, ◌/◌, ◌%◌, ◌<◌, u32_mod, ◌^◌, ◌≡◌, refl, Bool, true, false, ◌&&◌, ◌||◌, Option, none, some,
  List, [], ◌∷◌, arith, Str, nat_beq, if◌then◌else◌, i32_leb, nat_key, str_key, ◌==◌, get_or, ◌∙◌,
}
use pgfs.Dict.{Dict, get, get-put}
use pgfs.Block.{Bytes, block_size}
use pgfs.Db.Rows.{BlockRow, is_block_of, insert_by_no, read_blocks, upsert_block}
use pgfs.Db.Content.{collect, first_bytes}
use pgfs.Db.Content.Assemble.{bytes_or_empty}

-- The data of a block of a file.
abbrev pub stored : Str → Str → ℕ → List BlockRow → Option Bytes
stored p n k [] = none
stored p n k (r ∷ rs) =
    let rest = stored p n k rs in
    if is_block_of p n r && nat_beq r.block_no k then some r.bytes else rest

-- The primary key of the table: no two rows have the same parent, name and block number. A block
-- number is an `i32`.
abbrev pub IsTable : List BlockRow → Type 0
IsTable [] = Unit {0}
IsTable (r ∷ rs) =
    (stored r.parent r.name r.block_no rs ≡ none) × (r.block_no < u32_mod) × IsTable rs

-- The last row with the block number.
abbrev last_no : ℕ → List BlockRow → Option Bytes → Option Bytes
last_no k [] d = d
last_no k (r ∷ rs) d = last_no k rs (if nat_beq r.block_no k then some r.bytes else d)

abbrev has_no : ℕ → List BlockRow → Bool
has_no k [] = false
has_no k (r ∷ rs) = nat_beq r.block_no k || has_no k rs

get-collect :
    (k : ℕ) (xs : List BlockRow) (m : Dict ℕ Bytes) → get k (collect xs m) ≡ last_no k xs (get k m)
unfolding collect
get-collect k [] m = refl
get-collect k (r ∷ rs) m = rw (get-collect k rs _, get-put r.block_no k r.bytes m) refl

last_no-absent :
    (k : ℕ) (xs : List BlockRow) (d : Option Bytes) → has_no k xs ≡ false → last_no k xs d ≡ d
last_no-absent k [] d h = refl
last_no-absent k (x ∷ xs) d h = ground (arith, last_no-absent k xs d)

module _ (k : ℕ) (r : BlockRow) where
  has_no-insert :
      (xs : List BlockRow) → has_no k (insert_by_no r xs) ≡ (nat_beq r.block_no k || has_no k xs)
  unfolding insert_by_no
  has_no-insert [] = refl
  has_no-insert (x ∷ xs) = ground (arith, has_no-insert xs)

  last_no-insert :
      (xs : List BlockRow) (d : Option Bytes)
      → (nat_beq r.block_no k ≡ true → has_no k xs ≡ false)
      → last_no k (insert_by_no r xs) d
        ≡ (if nat_beq r.block_no k then some r.bytes else last_no k xs d)
  unfolding insert_by_no
  last_no-insert [] d h = ground arith
  last_no-insert (x ∷ xs) d h = ground (
    arith,
    h,
    last_no-absent k xs (some r.bytes),
    last_no-insert xs (if nat_beq x.block_no k then some x.bytes else d),
  )

module _ (p n : Str) (first last k : ℕ) where
  abbrev in_range : ℕ → Bool
  in_range b = i32_leb first b && i32_leb b last

  has_no-read_blocks :
      (rows : List BlockRow)
      → stored p n k rows ≡ none
      → has_no k (read_blocks p n first last rows) ≡ false
  unfolding read_blocks
  has_no-read_blocks [] h = refl
  has_no-read_blocks (r ∷ rs) h =
      ground (arith, has_no-read_blocks rs, has_no-insert k r (read_blocks p n first last rs))

  keyed_none :
      (r : BlockRow) (rs : List BlockRow)
      → stored r.parent r.name r.block_no rs ≡ none
      → (is_block_of p n r && nat_beq r.block_no k) ≡ true
      → stored p n k rs ≡ none
  keyed_none r rs h e = ground (arith, str_key.same_iff r.parent p, str_key.same_iff r.name n)

  last_no-read_blocks :
      (rows : List BlockRow)
      → IsTable rows
      → last_no k (read_blocks p n first last rows) none
        ≡ (if in_range k then stored p n k rows else none)
  unfolding read_blocks
  last_no-read_blocks [] h = ground arith
  last_no-read_blocks (r ∷ rs) (h, _, keyed) = ground (
    arith,
    last_no-read_blocks rs keyed,
    keyed_none r rs h,
    has_no-read_blocks rs,
    last_no-insert k r (read_blocks p n first last rs) none,
  )

  -- The map that `read_range_primary` builds of the query's rows has the stored blocks of the range.
  pub get-read_blocks :
      (rows : List BlockRow)
      → IsTable rows
      → get k (collect (read_blocks p n first last rows) [])
        ≡ (if in_range k then stored p n k rows else none)
  unfolding get
  get-read_blocks rows h =
      get-collect k (read_blocks p n first last rows) [] ∙ last_no-read_blocks rows h

-- The byte at a position of a file, as the table holds it; 0 where it holds none.
abbrev pub file_byte : Str → Str → List BlockRow → ℕ → ℕ
file_byte p n rows i = get_or (bytes_or_empty (stored p n (i / block_size) rows)) (i % block_size) 0

module _ (p n : Str) (b : ℕ) (small : b < 2 ^ 31) where
  pub read_blocks-none :
      (rows : List BlockRow)
      → IsTable rows
      → stored p n b rows ≡ none
      → read_blocks p n b b rows ≡ []
  unfolding read_blocks
  read_blocks-none [] t h = refl
  read_blocks-none (r ∷ rs) (_, i32, t) h = ground (arith, read_blocks-none rs t)

  -- The query for one block finds the data of the block.
  pub first_bytes_lem :
      (rows : List BlockRow)
      → IsTable rows
      → first_bytes (read_blocks p n b b rows) ≡ bytes_or_empty (stored p n b rows)
  unfolding first_bytes read_blocks insert_by_no
  first_bytes_lem [] t = refl
  first_bytes_lem (r ∷ rs) (h, i32, t) =
      ground (arith, first_bytes_lem rs t, read_blocks-none rs t, keyed_none p n b b b r rs h)

pub if-IsTable :
    (c : Bool) (xs ys : List BlockRow)
    → (c ≡ true → IsTable xs)
    → (c ≡ false → IsTable ys)
    → IsTable (if c then xs else ys)
if-IsTable true xs ys h k = h refl
if-IsTable false xs ys h k = k refl

module _ (p n : Str) (b : ℕ) (bytes : Bytes) where
  pub stored-upsert_block :
      (q m : Str) (k : ℕ) (rows : List BlockRow)
      → stored q m k (upsert_block p n b bytes rows)
        ≡ (if (p == q && n == m) && nat_beq b k then some bytes else stored q m k rows)
  unfolding upsert_block
  stored-upsert_block q m k [] = refl
  stored-upsert_block q m k (r ∷ rs) = ground (
    arith,
    stored-upsert_block q m k rs,
    str_key.same_iff r.parent p,
    str_key.same_iff r.name n,
    str_key.same_iff r.parent q,
    str_key.same_iff r.name m,
    str_key.same_iff p q,
    str_key.same_iff n m,
  )

  pub upsert_block-IsTable :
      (rows : List BlockRow) → b < u32_mod → IsTable rows → IsTable (upsert_block p n b bytes rows)
  unfolding upsert_block
  upsert_block-IsTable [] small t = (refl, small, tt)
  upsert_block-IsTable (r ∷ rs) small (h, i32, t) =
      if-IsTable (is_block_of p n r && nat_beq r.block_no b) (record r { bytes = bytes } ∷ rs)
        (r ∷ upsert_block p n b bytes rs) (λ e. (h, i32, t))
        λ e. (
          ground (
            arith,
            h,
            e,
            stored-upsert_block r.parent r.name r.block_no rs,
            str_key.same_iff r.parent p,
            str_key.same_iff r.name n,
            str_key.same_iff p r.parent,
            str_key.same_iff n r.name,
          ),
          i32,
          upsert_block-IsTable rs small t,
        )
