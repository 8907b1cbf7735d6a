-- ===== src/Db/Names/Tree.antt =====
-- What `Db::rename` (src/db.rs) needs and leaves, for a directory.
use pgfs.Prelude.{
  ℕ, ◌^◌, ◌<◌, ◌≡◌, true, ◌&&◌, none, some, ◌++◌, Str, str_key, ◌==◌, if◌then◌else◌, length,
}
use pgfs.Path.{join}
use pgfs.Db.Rows.{EntryRow, find_entry}
use pgfs.Db.Exec.{Db}
use pgfs.Db.Like.Plain.{is_plain, is_below}
use pgfs.Db.Names.Moved.Tail.{tail_of}
use pgfs.Db.Names.Moved.Below.{with_parent}
use pgfs.Db.Content.Stored.{stored}

-- The old path is ASCII with no `%`, `_` or backslash, and of less than 2^32 bytes; neither parent is
-- below it; and no entry and no block has its parent at or below the new path.
pub record CanMoveTree (p n q m : Str) (s : Db) : Type 0 where
  pub plain : is_plain (join p n) ≡ true
  pub short : length (join p n) < 2 ^ 32
  pub source_outside : tail_of (join p n) p ≡ none
  pub target_outside : tail_of (join p n) q ≡ none
  pub above : tail_of (join q m) q ≡ none
  pub no_entries :
      (x u : Str) → is_below x ≡ true → find_entry (join q m ++ x) u s.tables.entries ≡ none
  pub no_blocks :
      (x u : Str) (k : ℕ) → is_below x ≡ true → stored (join q m ++ x) u k s.tables.blocks ≡ none

-- The entry and the blocks of the old name are those of the new name. What has its parent at or below
-- the old path has the new path there in place of the old one, and the rest is as before.
pub record RenamesTree (p n q m : Str) (r : EntryRow) (s s' : Db) : Type 0 where
  pub entries :
      (t u : Str)
      → find_entry t u s'.tables.entries ≡ (
          if q == t && m == u
          then some (record r { parent = q; name = m; mtime = s.now })
          else if p == t && n == u
          then none
          else elim (tail_of (join q m) t) [
            | some x ↦ with_parent t (find_entry (join p n ++ x) u s.tables.entries)
            | none ↦ elim (tail_of (join p n) t) [
              | some _ ↦ none
              | none ↦ find_entry t u s.tables.entries
            ]
          ])
  pub blocks :
      (t u : Str) (k : ℕ)
      → stored t u k s'.tables.blocks ≡ (
          if q == t && m == u
          then stored p n k s.tables.blocks
          else if p == t && n == u
          then none
          else elim (tail_of (join q m) t) [
            | some x ↦ stored (join p n ++ x) u k s.tables.blocks
            | none ↦ elim (tail_of (join p n) t) [
              | some _ ↦ none
              | none ↦ stored t u k s.tables.blocks
            ]
          ])
