-- ===== src/Db/Content/Batch.antt =====
-- `Db::write_blocks_batch` (src/db.rs), with which a handle's buffer is flushed, where no statement
-- fails.
use pgfs.Prelude.{
  ℕ, ◌/◌, ◌<◌, max, ◌≡◌, ◌∙◌, refl, ap, Bool, true, false, ◌&&◌, Option, some, none, List, [], ◌∷◌,
  arith, Str, ltb, nat_beq, if◌then◌else◌, nat_key, str_key,
}
use pgfs.Dict.{Dict, get}
use pgfs.Block.{Bytes, block_size}
use pgfs.Handle.Write.{byte_at, IsMap, is_some}
use pgfs.Db.Rows.{EntryRow, BlockRow, FileMeta, ok, upsert_block, find_entry, update_size}
use pgfs.Db.Exec.{Db, Exec, update, execute, query, pure, ◌>>◌}
use pgfs.Db.Replica.{getattr_primary, meta_of}
use pgfs.Db.Content.{upsert_all, set_size, write_blocks_batch, is_empty}
use pgfs.Db.Content.Assemble.{block_of-get}
use pgfs.Db.Content.Stored.{stored, IsTable, file_byte, stored-upsert_block, upsert_block-IsTable}
use pgfs.Db.Content.Writing.{with_rows, SameElsewhere}
use pgfs.Db.Content.Whole.{
  calm, Has, bind_ok, getattr_primary_lem, transaction_runs, written, find_entry-update_size,
  find_entry-update_size_other, SameEntries, row_to_meta-size,
}

abbrev pub or_else : Option Bytes → Option Bytes → Option Bytes
or_else none d = d
or_else (some b) d = some b

module _ (p n : Str) where
  record Upserted (blocks : Dict ℕ Bytes) (rows rows' : List BlockRow) : Type 0 where
    pub block : (k : ℕ) → stored p n k rows' ≡ or_else (get k blocks) (stored p n k rows)
    pub elsewhere : SameElsewhere p n rows rows'
    pub table : IsTable rows'

  upsert_all_lem :
      (blocks : Dict ℕ Bytes) (s : Db) (rows : List BlockRow)
      → IsTable rows
      → IsMap blocks
      → (rows' : List BlockRow) × (upsert_all p n blocks (with_rows s rows)
          ≡ (ok tt, with_rows s rows'))
        × Upserted blocks rows rows'
  unfolding upsert_all update execute get
  upsert_all_lem [] s rows t m =
      (rows, refl, record { block = λ k. refl; elsewhere = λ q m k o. refl; table = t })
  upsert_all_lem ((k, v) ∷ blocks) s rows t (new, i32, m) =
      let (final, runs, u) =
        upsert_all_lem blocks s (upsert_block p n k v rows)
          (upsert_block-IsTable p n k v rows i32 t) m in
      (
        final,
        runs,
        record {
          block = λ j. ground (
            arith,
            u.block j,
            new,
            stored-upsert_block p n k v p n j rows,
            str_key.same_iff p p,
            str_key.same_iff n n,
          );
          elsewhere = λ q m j other.
              u.elsewhere q m j other ∙ ground (arith, stored-upsert_block p n k v q m j rows);
          table = u.table;
        },
      )

-- What a flush of `blocks` leaves: a block of the buffer takes the place of the whole block of the
-- file, also where the file had bytes that the buffer does not have.
pub record Flushes (p n : Str) (blocks : Dict ℕ Bytes) (size : ℕ) (r : EntryRow) (s s' : Db)
    : Type 0 where
  pub at_byte :
      (i : ℕ)
      → file_byte p n s'.tables.blocks i ≡ (
          if is_some (get (i / block_size) blocks)
          then byte_at blocks i
          else file_byte p n s.tables.blocks i)
  pub entry :
      find_entry p n s'.tables.entries ≡ some (record r { size = max r.size size; mtime = s.now })
  pub entries_elsewhere : SameEntries p n s.tables.entries s'.tables.entries
  pub elsewhere : SameElsewhere p n s.tables.blocks s'.tables.blocks
  pub table : IsTable s'.tables.blocks

module _ (p n : Str) (blocks : Dict ℕ Bytes) (size : ℕ) (some_size : 0 < size) where
  abbrev upserts_and_size : Bool → ℕ → Exec (Unit {0})
  upserts_and_size sized old = do
    upsert_all p n blocks
    if sized then set_size p n (max old size) else pure tt

  upserts_and_size_lem :
      (old : ℕ) (s : Db) (rows : List BlockRow)
      → upsert_all p n blocks (calm s) ≡ (ok tt, with_rows s rows)
      → upserts_and_size true old (calm s) ≡ (ok tt, written p n (max old size) rows s)
  unfolding set_size update execute
  upserts_and_size_lem old s rows e = rw e refl

  batch_runs :
      (r : EntryRow) (m : FileMeta) (s : Db) (rows : List BlockRow)
      → Has p n r m s
      → upsert_all p n blocks (calm s) ≡ (ok tt, with_rows s rows)
      → write_blocks_batch p n blocks size (calm s) ≡ (ok tt, written p n (max m.size size) rows s)
  unfolding write_blocks_batch
  batch_runs r m s rows h e =
      let full : (is_empty blocks && nat_beq size 0) ≡ false = ground arith in
      let sized : ltb 0 size ≡ true = ground arith in
      rw (full, sized, write_blocks_batch)
        (bind_ok (getattr_primary p n) _ (calm s) (getattr_primary_lem p n r m s h)
          ∙ transaction_runs (upserts_and_size true m.size) s (written p n (max m.size size) rows s)
              (upserts_and_size_lem m.size s rows e))

  -- Where no statement fails, `write_blocks_batch` of a buffer that has a size succeeds. Afterwards
  -- each block of the file that the buffer holds is the buffer's block, also where the file had bytes
  -- that the buffer lacks, and the other blocks are as before. The size is the larger of the two, and
  -- all other names have the entries and the blocks that they had.
  pub write_blocks_batch-Flushes :
      (r : EntryRow) (m : FileMeta) (s : Db)
      → IsMap blocks
      → Has p n r m s
      → (s' : Db) × (write_blocks_batch p n blocks size (calm s) ≡ (ok tt, calm s'))
        × Flushes p n blocks size r s s'
  write_blocks_batch-Flushes r m s map_ h =
      let (rows, runs, u) = upsert_all_lem p n blocks s s.tables.blocks h.table map_ in
      (
        written p n (max m.size size) rows s,
        batch_runs r m s rows h runs,
        record {
          at_byte =
              λ i. ground (arith, u.block (i / block_size), block_of-get (i / block_size) blocks);
          entry =
              find_entry-update_size p n (max m.size size) s.now s.tables.entries r h.found
              ∙ ap (λ x. some (record r { size = max x size; mtime = s.now }))
                  (row_to_meta-size r m h.attributes);
          entries_elsewhere = λ q x. find_entry-update_size_other p n q x _ s.now s.tables.entries;
          elsewhere = u.elsewhere;
          table = u.table;
        },
      )

  -- What a flush leaves under a name that has no entry: its blocks, and still no entry.
  pub record Orphans (s s' : Db) : Type 0 where
    pub entries : s'.tables.entries ≡ s.tables.entries
    pub stored_blocks :
        (k : ℕ)
        → stored p n k s'.tables.blocks ≡ or_else (get k blocks) (stored p n k s.tables.blocks)
    pub elsewhere : SameElsewhere p n s.tables.blocks s'.tables.blocks
    pub table : IsTable s'.tables.blocks

  update_size_missing :
      (now : ℕ) (rows : List EntryRow)
      → find_entry p n rows ≡ none
      → update_size p n (max 0 size) now rows ≡ rows
  unfolding update_size find_entry
  update_size_missing now [] h = refl
  update_size_missing now (r ∷ rs) h = ground (arith, update_size_missing now rs)

  no_attributes :
      (s : Db)
      → find_entry p n s.tables.entries ≡ none
      → getattr_primary p n (calm s) ≡ (ok none, calm s)
  unfolding getattr_primary query execute meta_of
  no_attributes s h = rw (h) refl

  pub write_blocks_batch-Orphans :
      (s : Db)
      → IsMap blocks
      → IsTable s.tables.blocks
      → find_entry p n s.tables.entries ≡ none
      → (s' : Db) × (write_blocks_batch p n blocks size (calm s) ≡ (ok tt, calm s')) × Orphans s s'
  unfolding write_blocks_batch
  write_blocks_batch-Orphans s map_ t h =
      let (rows, runs, u) = upsert_all_lem p n blocks s s.tables.blocks t map_ in
      let full : (is_empty blocks && nat_beq size 0) ≡ false = ground arith in
      let sized : ltb 0 size ≡ true = ground arith in
      (
        written p n (max 0 size) rows s,
        rw (full, sized, write_blocks_batch)
            (bind_ok (getattr_primary p n) _ (calm s) (no_attributes s h)
              ∙ transaction_runs (upserts_and_size true 0) s (written p n (max 0 size) rows s)
                  (upserts_and_size_lem 0 s rows runs)),
        record {
          entries = update_size_missing s.now s.tables.entries h;
          stored_blocks = u.block;
          elsewhere = u.elsewhere;
          table = u.table;
        },
      )
