-- ===== src/Fs/Attributes.antt =====
-- The attributes that the kernel is told (src/fs.rs `attr`), and the callbacks about them: `lookup`,
-- `getattr` and `setattr`.
use pgfs.Prelude.{ℕ, ◌+◌, ◌/◌, ◌%◌, Option, none, some, Str, nat_beq, if◌then◌else◌}
use pgfs.Path.{join, split_path}
use pgfs.Metrics.{lookup_count, getattr_count, setattr_count, enoent_count}
use pgfs.Inodes.{root_ino}
use pgfs.Db.Rows.{file, dir, FileMeta}
use pgfs.Db.Replica.{getattr, getattr_primary}
use pgfs.Db.Content.{truncate}
use pgfs.Fs.State.{
  enoent, eisdir, FileAttr, PgFs, entry, attributes, error, Handler, reply, count, on_ok, on_some,
  with_ino, with_path, with_resolved, callback_preamble,
}

abbrev pub div_ceil : ℕ → ℕ → ℕ
div_ceil a b = if nat_beq (a % b) 0 then a / b else a / b + 1

unfoldable pub file_attr : ℕ → ℕ → ℕ → PgFs → FileAttr
file_attr ino size mtime fs = record {
  ino = ino;
  size = size;
  blocks = div_ceil size 512;
  atime = mtime;
  mtime = mtime;
  ctime = mtime;
  crtime = mtime;
  kind = file;
  perm = 0o644;
  nlink = 1;
  uid = fs.uid;
  gid = fs.gid;
  rdev = 0;
  blksize = 4096;
  flags = 0;
}

-- The times of a directory are the epoch.
unfoldable pub dir_attr : ℕ → PgFs → FileAttr
dir_attr ino fs = record {
  ino = ino;
  size = 0;
  blocks = 0;
  atime = 0;
  mtime = 0;
  ctime = 0;
  crtime = 0;
  kind = dir;
  perm = 0o755;
  nlink = 2;
  uid = fs.uid;
  gid = fs.gid;
  rdev = 0;
  blksize = 4096;
  flags = 0;
}

unfoldable pub root_attr : PgFs → FileAttr
unfolding dir_attr
root_attr = dir_attr root_ino

unfoldable pub attr : ℕ → FileMeta → PgFs → FileAttr
unfolding file_attr dir_attr
attr ino meta fs = elim meta.kind [
  | dir ↦ dir_attr ino fs
  | file ↦ file_attr ino meta.size meta.mtime fs
]

-- `lookup`
unfoldable pub lookup : ℕ → ℕ → Option Str → Handler
lookup now_ms parent name = callback_preamble now_ms (
    count lookup_count (
      with_resolved parent name (count enoent_count (reply (error enoent))) λ parent_path n.
        on_ok (getattr now_ms parent_path n) λ found. on_some found (reply (error enoent)) λ meta.
          with_ino (join parent_path n) λ ino fs. (fs, entry fs.attr_ttl (attr ino meta fs))))

-- The end of `getattr` and of `setattr`.
unfoldable pub reply_attr : ℕ → Option FileMeta → Handler
reply_attr ino found =
    on_some found (reply (error enoent)) λ meta fs. (fs, attributes fs.attr_ttl (attr ino meta fs))

unfoldable pub reply_root : Handler
reply_root fs = (fs, attributes fs.attr_ttl (root_attr fs))

-- `getattr`
unfoldable pub getattr_of : ℕ → ℕ → Handler
unfolding reply_attr reply_root
getattr_of now_ms ino = callback_preamble now_ms (
    count getattr_count (
      if nat_beq ino root_ino
      then reply_root
      else with_path ino λ path.
        let (parent, name) = split_path path in
        on_ok (getattr now_ms parent name) (reply_attr ino)))

-- The size change that `setattr` asks for.
unfoldable pub resize_to : Str → Str → FileMeta → Option ℕ → Handler → Handler
resize_to parent name meta none k = k
resize_to parent name meta (some new_size) k = elim meta.kind [
  | dir ↦ reply (error eisdir)
  | file ↦ on_ok (truncate parent name new_size) λ _. k
]

-- `setattr`, of which only the size has an effect
unfoldable pub setattr : ℕ → ℕ → Option ℕ → Handler
unfolding reply_attr reply_root resize_to
setattr now_ms ino size = callback_preamble now_ms (
    count setattr_count (
      if nat_beq ino root_ino
      then reply_root
      else with_path ino λ path.
        let (parent, name) = split_path path in
        on_ok (getattr_primary parent name) λ found. on_some found (reply (error enoent)) λ meta.
          resize_to parent name meta size (on_ok (getattr_primary parent name) (reply_attr ino))))
