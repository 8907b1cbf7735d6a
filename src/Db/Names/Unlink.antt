-- ===== src/Db/Names/Unlink.antt =====
-- `Db::unlink` (src/db.rs), where no statement fails.
use pgfs.Prelude.{ℕ, ◌≡◌, refl, ◌&&◌, none, List, [], ◌∷◌, arith, Str, str_key, ◌==◌, if◌then◌else◌}
use pgfs.Db.Rows.{EntryRow, BlockRow, ok, find_entry, delete_entry, delete_blocks}
use pgfs.Db.Exec.{Db, update, execute}
use pgfs.Db.Names.{unlink, delete_row, delete_block_rows}
use pgfs.Db.Content.Stored.{stored}
use pgfs.Db.Content.Whole.{calm}

module _ (p n q m : Str) where
  pub find_entry-delete_entry :
      (rows : List EntryRow)
      → find_entry q m (delete_entry p n rows)
        ≡ (if p == q && n == m then none else find_entry q m rows)
  unfolding find_entry delete_entry
  find_entry-delete_entry [] = ground arith
  find_entry-delete_entry (r ∷ rs) = ground (
    arith,
    find_entry-delete_entry rs,
    str_key.same_iff r.parent p,
    str_key.same_iff r.name n,
    str_key.same_iff r.parent q,
    str_key.same_iff r.name m,
    str_key.same_iff p q,
    str_key.same_iff n m,
  )

  pub stored-delete_blocks :
      (k : ℕ) (rows : List BlockRow)
      → stored q m k (delete_blocks p n rows)
        ≡ (if p == q && n == m then none else stored q m k rows)
  unfolding delete_blocks
  stored-delete_blocks k [] = ground arith
  stored-delete_blocks k (r ∷ rs) = ground (
    arith,
    stored-delete_blocks k rs,
    str_key.same_iff r.parent p,
    str_key.same_iff r.name n,
    str_key.same_iff r.parent q,
    str_key.same_iff r.name m,
    str_key.same_iff p q,
    str_key.same_iff n m,
  )

-- The entry and the blocks of the name are gone, and those of all others are as before.
pub record Unlinks (p n : Str) (s s' : Db) : Type 0 where
  pub entries :
      (q m : Str)
      → find_entry q m s'.tables.entries
        ≡ (if p == q && n == m then none else find_entry q m s.tables.entries)
  pub blocks :
      (q m : Str) (k : ℕ)
      → stored q m k s'.tables.blocks
        ≡ (if p == q && n == m then none else stored q m k s.tables.blocks)

-- Where no statement fails, `unlink` succeeds. Afterwards the name has no entry and no blocks, and
-- all other names have the entries and the blocks that they had.
pub unlink-Unlinks :
    (p n : Str) (s : Db) → (s' : Db) × (unlink p n (calm s) ≡ (ok tt, calm s')) × Unlinks p n s s'
unfolding unlink delete_row delete_block_rows update execute
unlink-Unlinks p n s = (
  record s {
    tables = record {
      entries = delete_entry p n s.tables.entries;
      blocks = delete_blocks p n s.tables.blocks;
    };
  },
  refl,
  record {
    entries = λ q m. find_entry-delete_entry p n q m s.tables.entries;
    blocks = λ q m k. stored-delete_blocks p n q m k s.tables.blocks;
  },
)
