-- ===== src/Fs/Session.antt =====
-- A session: the callbacks that the kernel makes, one after another (src/fs.rs).
mod Handlers
mod EntryHandlers
use pgfs.Prelude.{
  nat_key, none, arith, inl, inr, ◌<◌, Option-cases, true, ℕ, ◌≡◌, Bool, Option, some, List, [],
  ◌∷◌, Str,
}
use pgfs.Dict.{get}
use pgfs.Handle.{HandleBuffer}
use pgfs.Fs.Handles.{Given-get, HasHandles-none}
use pgfs.Block.{Bytes}
use pgfs.Inodes.Consistent.{IsConsistent, IsConsistent-init, IsConsistent-injective}
use pgfs.Db.Exec.{Db}
use pgfs.Fs.State.{Reply, DirEntry, PgFs, Handler, with_attr_ttl}
use pgfs.Fs.Attributes.{lookup, getattr_of, setattr}
use pgfs.Fs.Files
use pgfs.Fs.Entries
use pgfs.Fs.Invariant.{Keeps, IsSound}
use Handlers.{
  lookup-Keeps, getattr_of-Keeps, setattr-Keeps, open_ino-Keeps, read-Keeps, write-Keeps,
  flush-Keeps, fsync-Keeps, release-Keeps,
}
use EntryHandlers.{
  create-Keeps, mkdir-Keeps, unlink-Keeps, rmdir-Keeps, rename-Keeps, readdir-Keeps,
}

-- A callback with its arguments. Between two calls the server, its clock and its coming failures may
-- change in any way that leaves `PgFs` itself alone.
pub data Call : Type 0 where
  lookups : ℕ → ℕ → Option Str → Call
  getattrs : ℕ → ℕ → Call
  setattrs : ℕ → ℕ → Option ℕ → Call
  opens : ℕ → ℕ → Call
  reads : ℕ → ℕ → ℕ → ℕ → ℕ → Call
  writes : ℕ → ℕ → ℕ → ℕ → Bytes → Call
  flushes : ℕ → ℕ → ℕ → Call
  fsyncs : ℕ → ℕ → ℕ → Call
  releases : ℕ → ℕ → Call
  creates : ℕ → ℕ → ℕ → Option Str → Call
  mkdirs : ℕ → ℕ → Option Str → Call
  unlinks : ℕ → ℕ → Option Str → Call
  rmdirs : ℕ → ℕ → Option Str → Call
  renames : ℕ → ℕ → Option Str → ℕ → Option Str → ℕ → Call
  readdirs : (List DirEntry → DirEntry → Bool) → ℕ → ℕ → ℕ → Call

unfoldable pub dispatch : Call → Handler
dispatch (lookups t i n) = lookup t i n
dispatch (getattrs t i) = getattr_of t i
dispatch (setattrs t i size) = setattr t i size
dispatch (opens t i) = Files.open_ino t i
dispatch (reads t i fh offset size) = Files.read t i fh offset size
dispatch (writes t i fh offset buf) = Files.write t i fh offset buf
dispatch (flushes t i fh) = Files.flush t i fh
dispatch (fsyncs t i fh) = Files.fsync t i fh
dispatch (releases i fh) = Files.release i fh
dispatch (creates t wall i n) = Entries.create t wall i n
dispatch (mkdirs t i n) = Entries.mkdir t i n
dispatch (unlinks t i n) = Entries.unlink t i n
dispatch (rmdirs t i n) = Entries.rmdir t i n
dispatch (renames t i n j m flags) = Entries.rename t i n j m flags
dispatch (readdirs full t i offset) = Entries.readdir full t i offset

-- What happens in a session: a callback, or a change of the server's side.
pub data Step : PgFs → PgFs → Type 0 where
  call : (c : Call) (fs : PgFs) → Step fs (dispatch c fs).0
  server : (db : Db) (fs : PgFs) → Step fs (record fs { db = db })
  signal : (fs : PgFs) → Step fs (record fs { dump_requested = true })

pub data Reach (fs : PgFs) : PgFs → Type 0 where
  here : Reach fs fs
  next : {gs hs : PgFs} → Reach fs gs → Step gs hs → Reach fs hs

dispatch-Keeps : (c : Call) → Keeps (dispatch c)
unfolding dispatch
dispatch-Keeps (lookups t i n) = lookup-Keeps t i n
dispatch-Keeps (getattrs t i) = getattr_of-Keeps t i
dispatch-Keeps (setattrs t i size) = setattr-Keeps t i size
dispatch-Keeps (opens t i) = open_ino-Keeps t i
dispatch-Keeps (reads t i fh offset size) = read-Keeps t i fh offset size
dispatch-Keeps (writes t i fh offset buf) = write-Keeps t i fh offset buf
dispatch-Keeps (flushes t i fh) = flush-Keeps t i fh
dispatch-Keeps (fsyncs t i fh) = fsync-Keeps t i fh
dispatch-Keeps (releases i fh) = release-Keeps i fh
dispatch-Keeps (creates t wall i n) = create-Keeps t wall i n
dispatch-Keeps (mkdirs t i n) = mkdir-Keeps t i n
dispatch-Keeps (unlinks t i n) = unlink-Keeps t i n
dispatch-Keeps (rmdirs t i n) = rmdir-Keeps t i n
dispatch-Keeps (renames t i n j m flags) = rename-Keeps t i n j m flags
dispatch-Keeps (readdirs full t i offset) = readdir-Keeps full t i offset

Step-IsSound : {fs gs : PgFs} → Step fs gs → IsSound fs → IsSound gs
Step-IsSound (call c fs) s = (dispatch-Keeps c).at fs s
Step-IsSound (server db fs) s = s
Step-IsSound (signal fs) s = s

Reach-IsSound : {fs gs : PgFs} → Reach fs gs → IsSound fs → IsSound gs
Reach-IsSound here s = s
Reach-IsSound (next r st) s = Step-IsSound st (Reach-IsSound r s)

mount-IsSound :
    (db : Db) (dump : Bool) (ttl uid gid : ℕ) → IsSound (with_attr_ttl db dump ttl uid gid)
unfolding with_attr_ttl
mount-IsSound db dump ttl uid gid = (IsConsistent-init, HasHandles-none)

-- After any session from a new mount, with any callbacks and any behaviour of the server between
-- them, the inode maps are consistent: a path's number leads back to the path, and all numbers in use
-- are below the next one.
pub Reach-IsConsistent :
    (db : Db) (dump : Bool) (ttl uid gid : ℕ) (fs : PgFs)
    → Reach (with_attr_ttl db dump ttl uid gid) fs
    → IsConsistent fs.inodes
Reach-IsConsistent db dump ttl uid gid fs r =
    (Reach-IsSound r (mount-IsSound db dump ttl uid gid)).0

not_open :
    (fh : ℕ) (fs : PgFs)
    → ((h : HandleBuffer) → get fh fs.open_handles ≡ some h → ⊥)
    → get fh fs.open_handles ≡ none
not_open fh fs never = elim (Option-cases (get fh fs.open_handles)) [
  | inl e ↦ e
  | inr (h, e) ↦ absurd (never h e)
]

-- After any session from a new mount, with any callbacks and any behaviour of the server between
-- them, no open handle has the number 0, which the kernel sends for none, or the number that the
-- next open or create gives out, and the handle entered under an inode has a number that was given
-- out before.
pub Reach-HasHandles :
    (db : Db) (dump : Bool) (ttl uid gid : ℕ) (fs : PgFs)
    → Reach (with_attr_ttl db dump ttl uid gid) fs
    → (get 0 fs.open_handles ≡ none)
      × (get fs.next_fh fs.open_handles ≡ none)
      × ((i fh : ℕ) → get i fs.open_handles_by_ino ≡ some fh → (0 < fh) × (fh < fs.next_fh))
Reach-HasHandles db dump ttl uid gid fs r =
    let s = (Reach-IsSound r (mount-IsSound db dump ttl uid gid)).1 in
    (
      not_open 0 fs (λ h e. omega (arith, s.handle 0 h e)),
      not_open fs.next_fh fs (λ h e. omega (arith, s.handle fs.next_fh h e)),
      λ i fh e. Given-get fs.next_fh i fh fs.open_handles_by_ino s.given e,
    )
