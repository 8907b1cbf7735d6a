-- ===== src/Fs/Entries.antt =====
-- The callbacks on directory entries (src/fs.rs): `create`, `mkdir`, `unlink`, `rmdir`, `rename` and
-- `readdir`.
pub mod Pages
pub mod Listing
use pgfs.Prelude.{
  ℕ, ◌+◌, Bool, Option, none, some, List, [], ◌∷◌, ◌++◌, Str, codes, str_key, nat_key, ◌==◌,
  nat_beq, if◌then◌else◌, drop,
}
use pgfs.Dict.{put}
use pgfs.Path.{join, split_path, starts_with}
use pgfs.Metrics.{create_count, mkdir_count, unlink_count, rmdir_count, rename_count, readdir_count}
use pgfs.Inodes
use pgfs.Inodes.{rekey_maps, forget}
use pgfs.Db.Rows.{Kind, file, dir, FileMeta, Result, ok, err, panic}
use pgfs.Db.Replica.{getattr_primary, list_primary, list}
use pgfs.Db.Names
use pgfs.Db.Content.{is_empty}
use pgfs.Fs.State.{
  Errno, enoent, eexist, enotempty, eisdir, enotdir, einval, DirEntry, PgFs, entry, created,
  directory, done, error, aborted, Handler, reply, count, attempt, on_ok, on_some, with_ino,
  with_path, with_resolved, callback_preamble, fresh_handle,
}
use pgfs.Fs.Attributes.{file_attr, dir_attr}

unfoldable pub refuse : Errno → Handler
refuse e = reply (error e)

-- The handle of a new file: it is opened, but not entered by its inode.
abbrev pub open_new : Str → Str → (ℕ → Handler) → Handler
open_new parent name k fs = k fs.next_fh (record fs {
  next_fh = fs.next_fh + 1;
  open_handles = put fs.next_fh (fresh_handle parent name) fs.open_handles;
})

abbrev pub reply_created : ℕ → ℕ → ℕ → Handler
reply_created wall fh ino fs = (fs, created fs.attr_ttl (file_attr ino 0 wall fs) fh)

abbrev pub reply_directory_entry : ℕ → Handler
reply_directory_entry ino fs = (fs, entry fs.attr_ttl (dir_attr ino fs))

-- `create`, at the wall-clock time `wall`
unfoldable pub create : ℕ → ℕ → ℕ → Option Str → Handler
unfolding refuse
create now_ms wall parent name = callback_preamble now_ms (
    count create_count (
      with_resolved parent name (refuse enoent) λ parent_path n.
        on_ok (getattr_primary parent_path n) λ found.
          on_some found
            (on_ok (Names.create parent_path n) λ _.
              open_new parent_path n λ fh. with_ino (join parent_path n) (reply_created wall fh))
            λ _. refuse eexist))

-- `mkdir`
unfoldable pub mkdir : ℕ → ℕ → Option Str → Handler
unfolding refuse
mkdir now_ms parent name = callback_preamble now_ms (
    count mkdir_count (
      with_resolved parent name (refuse enoent) λ parent_path n.
        on_ok (getattr_primary parent_path n) λ found.
          on_some found
            (on_ok (Names.mkdir parent_path n)
              λ _. with_ino (join parent_path n) reply_directory_entry)
            λ _. refuse eexist))

abbrev pub forgetting : Str → Handler
forgetting path fs = (record fs { inodes = forget path fs.inodes }, done)

-- `unlink`
unfoldable pub unlink : ℕ → ℕ → Option Str → Handler
unfolding refuse
unlink now_ms parent name = callback_preamble now_ms (
    count unlink_count (
      with_resolved parent name (refuse enoent)
        λ parent_path n. on_ok (Names.unlink parent_path n) λ _. forgetting (join parent_path n)))

-- `rmdir`
unfoldable pub rmdir : ℕ → ℕ → Option Str → Handler
unfolding refuse
rmdir now_ms parent name = callback_preamble now_ms (
    count rmdir_count (
      with_resolved parent name (refuse enoent) λ parent_path n.
        on_ok (getattr_primary parent_path n) λ found. on_some found (refuse enoent) λ _.
          on_ok (Names.rmdir parent_path n)
            λ removed. if removed then forgetting (join parent_path n) else refuse enotempty))

-- The checks of `rename` against an existing target, before `k`.
unfoldable pub compatible : Kind → Kind → Str → Handler → Handler
unfolding refuse
compatible file dir target_path k = refuse eisdir
compatible dir file target_path k = refuse enotdir
compatible dir dir target_path k =
    on_ok (list_primary target_path) λ below. if is_empty below then k else refuse enotempty
compatible file file target_path k = k

-- `if let Ok(Some(target_meta)) = …`: an error of this query is passed over.
unfoldable pub checked : Kind → Result (Option FileMeta) → Str → Handler → Handler
unfolding compatible
checked source (ok (some target)) target_path k = compatible source target.kind target_path k
checked source (ok none) target_path k = k
checked source (err e) target_path k = k
checked source panic target_path k = reply aborted

abbrev pub rekeyed : Str → Str → Handler
rekeyed old_path new_path fs = (record fs { inodes = rekey_maps old_path new_path fs.inodes }, done)

unfoldable pub moved : Str → Str → Str → Str → Handler
moved old_parent old_name new_parent new_name =
    on_ok (Names.rename old_parent old_name new_parent new_name)
      λ _. rekeyed (join old_parent old_name) (join new_parent new_name)

unfoldable pub rename_resolved : Str → Str → Str → Str → Handler
unfolding refuse checked moved starts_with
rename_resolved old_parent old_name new_parent new_name =
    let old_path = join old_parent old_name in
    let new_path = join new_parent new_name in
    if new_path == old_path
    then reply done
    else if starts_with new_path (old_path ++ codes "/")
    then refuse einval
    else on_ok (getattr_primary old_parent old_name) λ found.
      on_some found (refuse enoent) λ source.
        attempt (getattr_primary new_parent new_name) λ target.
          checked source.kind target new_path (moved old_parent old_name new_parent new_name)

-- `rename`
unfoldable pub rename : ℕ → ℕ → Option Str → ℕ → Option Str → ℕ → Handler
unfolding rename_resolved refuse
rename now_ms parent name newparent newname flags = callback_preamble now_ms (
    count rename_count (
      if nat_beq flags 0
      then (with_resolved parent name (refuse enoent) λ old_parent old_name.
          with_resolved newparent newname (refuse enoent)
            λ new_parent new_name. rename_resolved old_parent old_name new_parent new_name)
      else refuse einval))

-- The entries of a listing from number `i` on, with the offsets that the kernel passes back.
unfoldable pub numbered : ℕ → List (ℕ × Kind × Str) → List DirEntry
numbered i [] = []
numbered i ((ino, kind, name) ∷ es) =
    record { ino = ino; offset = i + 1; kind = kind; name = name } ∷ numbered (i + 1) es

-- The loop over `reply.add`, which answers `true` when the buffer has no room for an entry.
unfoldable pub fill :
    (List DirEntry → DirEntry → Bool) → List DirEntry → List DirEntry → List DirEntry
fill full added [] = added
fill full added (e ∷ es) =
    let rest = fill full (added ++ e ∷ []) es in if full added e then added else rest

abbrev pub with_entry : ℕ × Kind × Str → List (ℕ × Kind × Str) × PgFs → List (ℕ × Kind × Str) × PgFs
with_entry e (es, fs) = (e ∷ es, fs)

-- The entries of the children, whose inode numbers are allocated on the way.
unfoldable pub child_entries : Str → List FileMeta → PgFs → List (ℕ × Kind × Str) × PgFs
child_entries path [] fs = ([], fs)
child_entries path (m ∷ ms) fs =
    let (ino, t) = Inodes.ino_for (join path m.name) fs.inodes in
    with_entry (ino, m.kind, m.name) (child_entries path ms (record fs { inodes = t }))

-- The reply of `readdir`: the entries from number `offset` on that the buffer has room for.
unfoldable pub listing :
    (List DirEntry → DirEntry → Bool) → ℕ → ℕ → Str → ℕ → List FileMeta → Handler
unfolding numbered fill child_entries
listing full offset ino path parent_ino metas fs =
    let (below, fs') = child_entries path metas fs in
    (
      fs',
      directory (
          fill full [] (
            drop offset
              (numbered 0 ((ino, dir, codes ".") ∷ (parent_ino, dir, codes "..") ∷ below)))),
    )

-- `readdir`
unfoldable pub readdir : (List DirEntry → DirEntry → Bool) → ℕ → ℕ → ℕ → Handler
unfolding listing
readdir full now_ms ino offset = callback_preamble now_ms (
    count readdir_count (
      with_path ino λ path. with_ino (split_path path).0 λ parent_ino.
        on_ok (list now_ms path) λ metas. listing full offset ino path parent_ino metas))
