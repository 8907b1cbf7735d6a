-- ===== src/Db/Content/Truncate.antt =====
-- `Db::truncate` (src/db.rs) as a whole, where no statement fails.
use pgfs.Prelude.{
  ℕ, ◌/◌, ◌^◌, ◌<◌, ◌≡◌, ◌∙◌, refl, Bool, true, false, not, ◌&&◌, ◌||◌, some, List, arith, Str, ltb,
  if◌then◌else◌, nat_key, str_key,
}
use pgfs.Block.{block_size}
use pgfs.Db.Rows.{EntryRow, BlockRow, FileMeta, file, ok, find_entry}
use pgfs.Db.Exec.{Db, Exec, update, execute, pure, ◌>>◌}
use pgfs.Db.Replica.{getattr_primary}
use pgfs.Db.Content.{shrink, set_size, truncate_meta, truncate}
use pgfs.Db.Content.Stored.{IsTable, file_byte}
use pgfs.Db.Content.Writing.{SameElsewhere}
use pgfs.Db.Content.Whole.{
  calm, Has, bind_ok, getattr_primary_lem, transaction_runs, written, find_entry-update_size,
  find_entry-update_size_other, SameEntries,
}
use pgfs.Db.Content.Shrink.{
  shrunk, shrink_lem, shrunk-IsTable, stored-shrunk, stored-prune_blocks, in_kept_block,
  file_byte-shrunk,
}

-- What `truncate` to `size` leaves of a file with the row `r`.
pub record Truncated (p n : Str) (size : ℕ) (r : EntryRow) (m : FileMeta) (s s' : Db) : Type 0 where
  pub at_byte :
      (i : ℕ)
      → i < 2 ^ 47
      → file_byte p n s'.tables.blocks i ≡ (
          if ltb size m.size && not (ltb i size || in_kept_block size i)
          then 0
          else file_byte p n s.tables.blocks i)
  pub entry : find_entry p n s'.tables.entries ≡ some (record r { size = size; mtime = s.now })
  pub entries_elsewhere : SameEntries p n s.tables.entries s'.tables.entries
  pub elsewhere : SameElsewhere p n s.tables.blocks s'.tables.blocks
  pub table : IsTable s'.tables.blocks

abbrev resized : Str → Str → ℕ → Bool → List BlockRow → List BlockRow
resized p n size shorter rows = if shorter then shrunk p n size rows else rows

abbrev shrink_and_size : Str → Str → ℕ → Bool → Exec (Unit {0})
shrink_and_size p n size shorter = do
  if shorter then shrink p n size else pure tt
  set_size p n size

module _ (p n : Str) (size : ℕ) (fits : size < 2 ^ 47) where
  shrink_and_size_lem :
      (shorter : Bool) (s : Db)
      → IsTable s.tables.blocks
      → shrink_and_size p n size shorter (calm s)
        ≡ (ok tt, written p n size (resized p n size shorter s.tables.blocks) s)
  unfolding set_size update execute
  shrink_and_size_lem true s t = rw (shrink_lem p n size s s.tables.blocks fits t) refl
  shrink_and_size_lem false s t = refl

  truncate_runs :
      (r : EntryRow) (m : FileMeta) (s : Db)
      → m.kind ≡ file
      → Has p n r m s
      → truncate p n size (calm s)
        ≡ (ok tt, written p n size (resized p n size (ltb size m.size) s.tables.blocks) s)
  unfolding truncate truncate_meta
  truncate_runs r m s is_file h =
      bind_ok (getattr_primary p n) (truncate_meta p n size) (calm s)
        (getattr_primary_lem p n r m s h)
      ∙ rw (is_file, truncate_meta)
          (transaction_runs (shrink_and_size p n size (ltb size m.size)) s
            (written p n size (resized p n size (ltb size m.size) s.tables.blocks) s)
            (shrink_and_size_lem (ltb size m.size) s h.table))

  resized-IsTable :
      (shorter : Bool) (rows : List BlockRow)
      → IsTable rows
      → IsTable (resized p n size shorter rows)
  resized-IsTable true rows t = shrunk-IsTable p n size rows fits t
  resized-IsTable false rows t = t

  file_byte-resized :
      (shorter : Bool) (rows : List BlockRow) (i : ℕ)
      → i < 2 ^ 47
      → file_byte p n (resized p n size shorter rows) i
        ≡ (if shorter && not (ltb i size || in_kept_block size i) then 0 else file_byte p n rows i)
  file_byte-resized true rows i h = ground (arith, file_byte-shrunk p n size i rows fits h)
  file_byte-resized false rows i h = refl

  resized-SameElsewhere :
      (shorter : Bool) (rows : List BlockRow)
      → SameElsewhere p n rows (resized p n size shorter rows)
  resized-SameElsewhere true rows q m k other = ground (
    arith,
    stored-shrunk p n size q m k rows,
    stored-prune_blocks p n (size / block_size) q m k rows,
  )
  resized-SameElsewhere false rows q m k other = refl

-- Where no statement fails, `truncate` of a file to less than 2^47 bytes succeeds, and the file has
-- the new size and the server's time. A larger size changes no byte. A smaller one clears the bytes
-- from the new size on, but not those of the block that begins at the new size, where the new size is
-- a multiple of the block size. The entries and the blocks of all other names are the same.
pub truncate-Truncated :
    (p n : Str) (size : ℕ) (r : EntryRow) (m : FileMeta) (s : Db)
    → size < 2 ^ 47
    → m.kind ≡ file
    → Has p n r m s
    → (s' : Db) × (truncate p n size (calm s) ≡ (ok tt, calm s')) × Truncated p n size r m s s'
truncate-Truncated p n size r m s fits is_file h = (
  written p n size (resized p n size (ltb size m.size) s.tables.blocks) s,
  truncate_runs p n size fits r m s is_file h,
  record {
    at_byte = λ i. file_byte-resized p n size fits (ltb size m.size) s.tables.blocks i;
    entry = find_entry-update_size p n size s.now s.tables.entries r h.found;
    entries_elsewhere = λ q u. find_entry-update_size_other p n q u size s.now s.tables.entries;
    elsewhere = resized-SameElsewhere p n size fits (ltb size m.size) s.tables.blocks;
    table = resized-IsTable p n size fits (ltb size m.size) s.tables.blocks h.table;
  },
)
