-- ===== src/Fs/State.antt =====
-- `PgFs`, its replies to the kernel, and the parts that the callbacks share (src/fs.rs).
use pgfs.Prelude.{
  ℕ, Bool, true, false, not, ◌||◌, Option, none, some, List, [], Str, nat_key, ltb, nat_beq,
  if◌then◌else◌,
}
use pgfs.Dict.{Dict, get, put, remove}
use pgfs.Block.{Bytes}
use pgfs.Handle.{HandleBuffer}
use pgfs.Metrics.{Counter, eio_count, fetch_add, check_liveness}
use pgfs.Inodes.{Inodes, ino_for, path_of_ino}
use pgfs.Inodes
use pgfs.Db.Rows.{Kind, Result, ok, err, panic}
use pgfs.Db.Exec.{Db, Exec}
use pgfs.Db.Replica.{replica_state}
use pgfs.Db.Content.{write_blocks_batch, is_empty}

pub data Errno : Type 0 where
  enoent eio eexist enotempty eisdir enotdir einval : Errno

pub record FileAttr : Type 0 where
  pub ino : ℕ
  pub size : ℕ
  pub blocks : ℕ
  pub atime : ℕ
  pub mtime : ℕ
  pub ctime : ℕ
  pub crtime : ℕ
  pub kind : Kind
  pub perm : ℕ
  pub nlink : ℕ
  pub uid : ℕ
  pub gid : ℕ
  pub rdev : ℕ
  pub blksize : ℕ
  pub flags : ℕ

pub record DirEntry : Type 0 where
  pub ino : ℕ
  pub offset : ℕ
  pub kind : Kind
  pub name : Str

-- The calls of the `reply` objects; `aborted` is a panic, after which no reply is sent.
pub data Reply : Type 0 where
  entry : ℕ → FileAttr → Reply
  attributes : ℕ → FileAttr → Reply
  bytes : Bytes → Reply
  written : ℕ → Reply
  opened : ℕ → Reply
  created : ℕ → FileAttr → ℕ → Reply
  directory : List DirEntry → Reply
  done : Reply
  error : Errno → Reply
  aborted : Reply

-- `uid` and `gid` are those of the process.
pub record PgFs : Type 0 where
  pub db : Db
  pub inodes : Inodes
  pub next_fh : ℕ
  pub open_handles : Dict ℕ HandleBuffer
  pub open_handles_by_ino : Dict ℕ ℕ
  pub dump_requested : Bool
  pub attr_ttl : ℕ
  pub uid : ℕ
  pub gid : ℕ

-- `PgFs::with_attr_ttl`
unfoldable pub with_attr_ttl : Db → Bool → ℕ → ℕ → ℕ → PgFs
with_attr_ttl db dump_requested attr_ttl uid gid = record {
  db = db;
  inodes = Inodes.init;
  next_fh = 1;
  open_handles = [];
  open_handles_by_ino = [];
  dump_requested = dump_requested;
  attr_ttl = attr_ttl;
  uid = uid;
  gid = gid;
}

abbrev pub Handler : Type 0
Handler = PgFs → PgFs × Reply

abbrev pub reply : Reply → Handler
reply r fs = (fs, r)

abbrev pub count : Counter → Handler → Handler
count c k fs = k (record fs { db = record fs.db { metrics = fetch_add c fs.db.metrics } })

-- `log_and_reply!`
abbrev pub log_and_reply : Handler
log_and_reply fs =
    (record fs { db = record fs.db { metrics = fetch_add eio_count fs.db.metrics } }, error eio)

module _ {A : Type 0} where
  abbrev pub on_result : Result A → (A → Handler) → Handler
  on_result (ok a) k = k a
  on_result (err e) k = log_and_reply
  on_result panic k = reply aborted

  -- An operation on the database, whose result `k` takes as it is.
  abbrev pub attempt : Exec A → (Result A → Handler) → Handler
  attempt m k fs = let (r, db') = m fs.db in k r (record fs { db = db' })

  -- An operation on the database, whose failure is logged and answered by EIO.
  abbrev pub on_ok : Exec A → (A → Handler) → Handler
  on_ok m k fs = let (r, db') = m fs.db in on_result r k (record fs { db = db' })

  abbrev pub on_some : Option A → Handler → (A → Handler) → Handler
  on_some none missing k = missing
  on_some (some a) missing k = k a

-- The inode number of a path, which is allocated if need be.
abbrev pub with_ino : Str → (ℕ → Handler) → Handler
with_ino path k fs = let (ino, t) = ino_for path fs.inodes in k ino (record fs { inodes = t })

-- `path_of_ino`, and ENOENT for an unknown inode number
abbrev pub with_path : ℕ → (Str → Handler) → Handler
with_path ino k fs = on_some (path_of_ino ino fs.inodes) (reply (error enoent)) k fs

abbrev pub resolved : Option (Str × Str) → Handler → (Str → Str → Handler) → Handler
resolved none missing k = missing
resolved (some (parent, name)) missing k = k parent name

-- `resolve`; a name that is no UTF-8 is `none`.
unfoldable pub resolve : ℕ → Option Str → Inodes → Option (Str × Str)
unfolding path_of_ino
resolve parent name t = elim (path_of_ino parent t) [
  | none ↦ none
  | some parent_path ↦ elim name [ none ↦ none | some n ↦ some (parent_path, n) ]
]

abbrev pub with_resolved : ℕ → Option Str → Handler → (Str → Str → Handler) → Handler
with_resolved parent name missing k fs = resolved (resolve parent name fs.inodes) missing k fs

-- `maybe_dump_state`: the dump asks for the state of the replica.
unfoldable pub maybe_dump_state : ℕ → PgFs → PgFs
unfolding replica_state
maybe_dump_state now_ms fs =
    if fs.dump_requested
    then record fs { db = (replica_state now_ms fs.db).1; dump_requested = false }
    else fs

-- `callback_preamble!`, before the rest of a callback
unfoldable pub callback_preamble : ℕ → Handler → Handler
unfolding maybe_dump_state check_liveness
callback_preamble now_ms k fs =
    let fs₁ = maybe_dump_state now_ms fs in
    let (healthy, m) = check_liveness now_ms fs₁.db.metrics in
    if healthy then k (record fs₁ { db = record fs₁.db { metrics = m } }) else (
      record fs₁ { db = record fs₁.db { metrics = record m { deadlock_detected = true } } },
      error eio,
    )

abbrev pub flushed : ℕ → HandleBuffer → Result (Unit {0}) → PgFs → Result (Unit {0}) × PgFs
flushed fh handle (ok _) fs = (
  ok tt,
  record fs {
    open_handles = put fh (record handle { dirty_blocks = []; max_size = 0 }) fs.open_handles;
  },
)
flushed fh handle (err e) fs = (err e, fs)
flushed fh handle panic fs = (panic, fs)

unfoldable pub flush_taken : ℕ → HandleBuffer → PgFs → Result (Unit {0}) × PgFs
unfolding write_blocks_batch put
flush_taken fh handle fs =
    if not (is_empty handle.dirty_blocks) || ltb 0 handle.max_size
    then (let (r, db') =
          write_blocks_batch handle.parent handle.name handle.dirty_blocks handle.max_size fs.db in
        flushed fh handle r (record fs { db = db' }))
    else (ok tt, record fs { open_handles = put fh handle fs.open_handles })

-- `flush_handle`: the handle is taken out of the map, and put back unless the write fails.
unfoldable pub flush_handle : ℕ → PgFs → Result (Unit {0}) × PgFs
unfolding get remove flush_taken
flush_handle fh fs = elim (get fh fs.open_handles) [
  | none ↦ (ok tt, fs)
  | some handle ↦ flush_taken fh handle (record fs { open_handles = remove fh fs.open_handles })
]

-- `Some(fh)`, or the handle that is open on the inode if the kernel gives none
unfoldable pub handle_id : ℕ → ℕ → PgFs → Option ℕ
unfolding get
handle_id ino fh fs = if nat_beq fh 0 then get ino fs.open_handles_by_ino else some fh

abbrev pub on_handle : ℕ → ℕ → (Option ℕ → Handler) → Handler
on_handle ino fh k fs = k (handle_id ino fh fs) fs

-- A new handle on an entry, with nothing buffered.
abbrev pub fresh_handle : Str → Str → HandleBuffer
fresh_handle parent name = record { parent = parent; name = name; dirty_blocks = []; max_size = 0 }
