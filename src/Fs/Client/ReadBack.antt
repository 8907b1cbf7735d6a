-- ===== src/Fs/Client/ReadBack.antt =====
-- A program that creates a file, writes to it and reads it back, by the callbacks `create`, `write` and
-- `read` (src/fs.rs).
use pgfs.Prelude.{
  ℕ, ◌+◌, ◌%◌, ◌^◌, ◌≤◌, ◌<◌, ◌≡◌, ◌∙◌, refl, false, some, none, List, [], ◌∷◌, arith, Str, codes,
  length, nat_beq, nat_key, str_key, u32_mod,
}
use pgfs.Dict.{get, put, get-put}
use pgfs.Path.{join}
use pgfs.Path.RoundTrip.{IsName}
use pgfs.Block.{Bytes}
use pgfs.Metrics.{create_count}
use pgfs.Inodes.{root_ino, path_of_ino}
use pgfs.Inodes.Consistent.{allocated, ino_for_new}
use pgfs.Db.Rows.{ok}
use pgfs.Db.Exec.{Db, query, execute}
use pgfs.Db.Replica.{getattr_primary, meta_of}
use pgfs.Db.Names.Insert.{inserted}
use pgfs.Db.Content.Whole.{calm}
use pgfs.Db.Content.File.{read_at, write_at}
use pgfs.Db.Content.Edits.{IsFree, create-Holds}
use pgfs.Fs.State.{PgFs, Reply, bytes, written, created, fresh_handle, resolve}
use pgfs.Fs.Attributes.{file_attr}
use pgfs.Fs.Files
use pgfs.Fs.Entries
use pgfs.Fs.Client.{IsQuiet, counted, counted-IsQuiet, preamble_lem, at_calm}
use pgfs.Fs.Client.Buffer.{fresh_handle-Buffered, Holds_same}
use pgfs.Fs.Client.Writing.{IsWriting, write-IsWriting, read_back}

-- A write that the kernel passes on, with its time.
pub record Chunk : Type 0 where
  pub now_ms : ℕ
  pub offset : ℕ
  pub buf : Bytes

-- The writes, one after another, with their replies.
abbrev pub write_all : ℕ → ℕ → List Chunk → PgFs → List Reply × PgFs
write_all ino fh [] fs = ([], fs)
write_all ino fh (c ∷ cs) fs =
    let (fs', r) = Files.write c.now_ms ino fh c.offset c.buf fs in
    let (rs, fs'') = write_all ino fh cs fs' in (r ∷ rs, fs'')

-- What they make of a list of bytes.
abbrev pub content : List Chunk → Bytes → Bytes
content [] f = f
content (c ∷ cs) f = content cs (write_at c.offset c.buf f)

abbrev pub AreAllowed : ℕ → List Chunk → Type 0
AreAllowed limit [] = Unit {0}
AreAllowed limit (c ∷ cs) =
    (c.now_ms < limit)
    × (0 < length c.buf)
    × (c.offset + length c.buf ≤ 2 ^ 47)
    × AreAllowed limit cs

abbrev pub counts : List Chunk → List Reply
counts [] = []
counts (c ∷ cs) = written (length c.buf % u32_mod) ∷ counts cs

module _ (limit : ℕ) (p n : Str) (ino fh : ℕ) (some_handle : nat_beq fh 0 ≡ false) where
  write_all-IsWriting :
      (cs : List Chunk) (f : Bytes) (fs : PgFs)
      → AreAllowed limit cs
      → IsWriting limit p n ino fh f fs
      → (fs' : PgFs) × (write_all ino fh cs fs ≡ (counts cs, fs'))
        × IsWriting limit p n ino fh (content cs f) fs'
  write_all-IsWriting [] f fs a w = (fs, refl, w)
  write_all-IsWriting (c ∷ cs) f fs (timely, some_bytes, fits, a) w =
      let (fs₁, runs, w₁) =
        write-IsWriting limit p n ino fh some_handle f fs w c.now_ms c.offset c.buf timely
          some_bytes fits in
      let (fs', all, w') = write_all-IsWriting cs (write_at c.offset c.buf f) fs₁ a w₁ in
      (fs', rw (runs, all) refl, w')

-- A name under which a file can be created: it is free in the tables, and its path has no inode number.
pub record CanCreate (limit : ℕ) (parent : ℕ) (p n : Str) (fs : PgFs) : Type 0 where
  pub quiet : IsQuiet limit fs.dump_requested fs.db
  pub parent_path : path_of_ino parent fs.inodes ≡ some p
  pub name : IsName n
  pub free : IsFree p n fs.db
  pub no_number : get (join p n) fs.inodes.ino_by_path ≡ none
  pub next_number : root_ino < fs.inodes.next_ino
  pub next_handle : 0 < fs.next_fh

module _ (limit parent : ℕ) (p n : Str) (fs : PgFs) (c : CanCreate limit parent p n fs) where
  abbrev counted_db : Db
  counted_db = (counted create_count fs).db

  IsFree-counted : IsFree p n counted_db
  IsFree-counted = record {
    no_entry = c.free.no_entry;
    no_blocks = c.free.no_blocks;
    table = c.free.table;
  }

  abbrev after_create : PgFs
  after_create = record (counted create_count fs) {
    db = calm (inserted (codes "file") p n counted_db);
    inodes = allocated (join p n) fs.inodes;
    next_fh = fs.next_fh + 1;
    open_handles = put fs.next_fh (fresh_handle p n) fs.open_handles;
  }

  abbrev pub attributes : ℕ → Reply
  attributes wall = created fs.attr_ttl (file_attr fs.inodes.next_ino 0 wall fs) fs.next_fh

  resolved_lem : resolve parent (some n) fs.inodes ≡ some (p, n)
  unfolding resolve
  resolved_lem = rw (c.parent_path, resolve) refl

  no_attributes : getattr_primary p n counted_db ≡ (ok none, calm counted_db)
  unfolding getattr_primary query execute meta_of
  no_attributes =
      at_calm (getattr_primary p n) counted_db _ c.quiet.no_faults (rw (c.free.no_entry) refl)

  create_runs :
      (now_ms wall : ℕ)
      → now_ms < limit
      → Entries.create now_ms wall parent (some n) fs ≡ (after_create, attributes wall)
  unfolding Entries.create file_attr
  create_runs now_ms wall t =
      let (creates, holds) = create-Holds p n counted_db IsFree-counted in
      preamble_lem limit now_ms _ fs c.quiet t
      ∙ rw (resolved_lem, no_attributes, creates, ino_for_new (join p n) fs.inodes c.no_number) refl

  ready : IsWriting limit p n fs.inodes.next_ino fs.next_fh [] after_create
  unfolding path_of_ino
  ready = record {
    quiet = record {
      no_dump = c.quiet.no_dump;
      lively = (counted-IsQuiet create_count limit fs c.quiet).lively;
      no_faults = refl;
    };
    empty =
        Holds_same p n [] (inserted (codes "file") p n counted_db) _ refl
          (create-Holds p n counted_db IsFree-counted).1;
    path = ground (
      arith,
      c.next_number,
      get-put fs.inodes.next_ino fs.inodes.next_ino (join p n) fs.inodes.path_by_ino,
    );
    handle = fresh_handle p n;
    held = ground (arith, get-put fs.next_fh fs.next_fh (fresh_handle p n) fs.open_handles);
    buffer = fresh_handle-Buffered p n;
  }

  -- Let no statement fail and no dump be asked for, and let the heartbeat's counter be the one that
  -- the last check saw (so that a check was made, and no beat came since), with the deadline that
  -- this check set after the time of every call. Take a directory's inode number, and a name that
  -- has no slash, no entry and no blocks, and whose path has no inode number; the next inode number
  -- is above the root's and the next handle number above 0, as they are after a mount. Through the
  -- callbacks, a file that is created under this name, and then written any number of times through
  -- its handle, each time some bytes that end at most at 2^47, reads back, at every offset and with
  -- every size that end at most at 2^47, as the list of bytes that the writes make of the empty
  -- list. The create answers with the new inode's attributes and the handle, and each write with
  -- its count.
  pub read-write_all-create :
      (now_ms wall later offset size : ℕ) (cs : List Chunk)
      → now_ms < limit
      → later < limit
      → AreAllowed limit cs
      → offset + size ≤ 2 ^ 47
      → (fs₁ fs₂ : PgFs) × (Entries.create now_ms wall parent (some n) fs ≡ (fs₁, attributes wall))
        × (write_all fs.inodes.next_ino fs.next_fh cs fs₁ ≡ (counts cs, fs₂))
        × ((Files.read later fs.inodes.next_ino fs.next_fh offset size fs₂).1
            ≡ bytes (read_at offset size (content cs [])))
  read-write_all-create now_ms wall later offset size cs t t' allowed fits =
      let fh : nat_beq fs.next_fh 0 ≡ false = ground (arith, c.next_handle) in
      let (fs₂, writes, w) =
        write_all-IsWriting limit p n fs.inodes.next_ino fs.next_fh fh cs [] after_create allowed
          ready in
      (
        after_create,
        fs₂,
        create_runs now_ms wall t,
        writes,
        read_back limit p n fs.inodes.next_ino fs.next_fh fh (content cs []) fs₂ w later offset size
            c.name t' fits,
      )
