-- ===== src/Db/Names.antt =====
-- Directory entries (src/db.rs): creation, removal and renaming.
pub mod Moved
pub mod Rename
pub mod RenamedFile
pub mod Tree
pub mod Directory
pub mod Rmdir
pub mod Unlink
pub mod Insert
use pgfs.Prelude.{
  ℕ, Bool, false, ◌&&◌, Option, none, some, List, [], Str, codes, str_key, ◌==◌, ltb, if◌then◌else◌,
  filterb, length,
}
use pgfs.Path.{join}
use pgfs.Db.Rows.{
  file, dir, FileMeta, EntryRow, BlockRow, Tables, no_source, target_not_empty, zero_rows, is_entry,
  is_block_of, find_entry, has_children, insert_entry, delete_entry, delete_blocks, update_rows,
  same_entry, same_block,
}
use pgfs.Db.Like.{is_descendant, moved_parent}
use pgfs.Db.Exec.{Exec, pure, raise, gets, query, update, execute, transaction, ◌>>=◌, ◌>>◌}
use pgfs.Db.Replica.{getattr_primary}

unfoldable pub insert : Str → Str → Str → Exec (Unit {0})
unfolding update insert_entry
insert kind parent name = do
  now ← gets (λ s. s.now)
  update (λ t. record t { entries = insert_entry parent name kind now t.entries })

unfoldable pub create : Str → Str → Exec (Unit {0})
unfolding insert
create = insert (codes "file")

unfoldable pub mkdir : Str → Str → Exec (Unit {0})
unfolding insert
mkdir = insert (codes "dir")

unfoldable pub delete_row : Str → Str → Exec (Unit {0})
unfolding update delete_entry
delete_row parent name = update (λ t. record t { entries = delete_entry parent name t.entries })

unfoldable pub delete_block_rows : Str → Str → Exec (Unit {0})
unfolding update delete_blocks
delete_block_rows parent name =
    update (λ t. record t { blocks = delete_blocks parent name t.blocks })

-- Two statements, in no transaction.
unfoldable pub unlink : Str → Str → Exec (Unit {0})
unfolding delete_row delete_block_rows
unlink parent name = do delete_row parent name; delete_block_rows parent name

-- DELETE FROM entries …, with the number of rows that it removed
unfoldable pub delete_counted : Str → Str → Exec ℕ
unfolding execute delete_entry
delete_counted parent name = execute (λ t. some (
  length (filterb (is_entry parent name) t.entries),
  record t { entries = delete_entry parent name t.entries },
))

-- Whether the directory was there, was empty, and is removed.
unfoldable pub rmdir : Str → Str → Exec Bool
unfolding query has_children join delete_counted
rmdir parent name = do
  occupied ← query (λ t. has_children (join parent name) t.entries)
  if occupied then pure false else do deleted ← delete_counted parent name; pure (ltb 0 deleted)

abbrev pub with_entries : Tables → Option (List EntryRow) → Option (Unit {0} × Tables)
with_entries t none = none
with_entries t (some rows) = some (tt, record t { entries = rows })

abbrev pub with_blocks : Tables → Option (List BlockRow) → Option (Unit {0} × Tables)
with_blocks t none = none
with_blocks t (some rows) = some (tt, record t { blocks = rows })

-- The removal of an existing target; a target directory must have no children.
unfoldable pub replace_target : Str → Str → Option EntryRow → Exec (Unit {0})
unfolding query has_children join delete_row delete_block_rows
replace_target parent name none = pure tt
replace_target parent name (some target) = do
  has ←
      if target.kind == codes "dir"
      then query (λ t. has_children (join parent name) t.entries)
      else pure false
  if has then raise target_not_empty else do delete_row parent name; delete_block_rows parent name

-- The two updates that move what lies below a directory.
unfoldable pub move_descendants : Str → Str → Exec (Unit {0})
unfolding execute update_rows is_descendant moved_parent
move_descendants old_path new_path = do
  execute (λ t. with_entries t (
      update_rows same_entry (λ r. is_descendant old_path r.parent)
        (λ r. record r { parent = moved_parent old_path new_path r.parent }) [] t.entries))
  execute (λ t. with_blocks t (
      update_rows same_block (λ r. is_descendant old_path r.parent)
        (λ r. record r { parent = moved_parent old_path new_path r.parent }) [] t.blocks))

abbrev pub with_count : Tables → ℕ → Option (List EntryRow) → Option (ℕ × Tables)
with_count t moved none = none
with_count t moved (some rows) = some (moved, record t { entries = rows })

-- The two updates that move the entry itself, with the number of entries moved.
unfoldable pub move_entry : Str → Str → Str → Str → Exec ℕ
unfolding execute update_rows
move_entry old_parent old_name new_parent new_name = do
  now ← gets (λ s. s.now)
  moved ← execute (λ t. with_count t (length (filterb (is_entry old_parent old_name) t.entries)) (
      update_rows same_entry (is_entry old_parent old_name)
        (λ r. record r { parent = new_parent; name = new_name; mtime = now }) [] t.entries))
  execute (λ t. with_blocks t (
      update_rows same_block (is_block_of old_parent old_name)
        (λ r. record r { parent = new_parent; name = new_name }) [] t.blocks))
  pure moved

-- What `rename` does within its transaction, for a source with the attributes `m`.
unfoldable pub rename_body : Str → Str → Str → Str → FileMeta → Exec (Unit {0})
unfolding query find_entry replace_target move_descendants move_entry join
rename_body old_parent old_name new_parent new_name m = do
  target ← query (λ t. find_entry new_parent new_name t.entries)
  replace_target new_parent new_name target
  elim m.kind [
    | dir ↦ move_descendants (join old_parent old_name) (join new_parent new_name)
    | file ↦ pure tt
  ]
  moved ← move_entry old_parent old_name new_parent new_name
  if ltb 0 moved then pure tt else raise zero_rows

unfoldable pub rename_meta : Str → Str → Str → Str → Option FileMeta → Exec (Unit {0})
unfolding transaction rename_body
rename_meta old_parent old_name new_parent new_name none = raise no_source
rename_meta old_parent old_name new_parent new_name (some m) =
    transaction (rename_body old_parent old_name new_parent new_name m)

unfoldable pub rename : Str → Str → Str → Str → Exec (Unit {0})
unfolding getattr_primary rename_meta
rename old_parent old_name new_parent new_name =
    if old_parent == new_parent && old_name == new_name then pure tt else do
      meta ← getattr_primary old_parent old_name
      rename_meta old_parent old_name new_parent new_name meta
