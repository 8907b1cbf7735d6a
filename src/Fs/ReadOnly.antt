-- ===== src/Fs/ReadOnly.antt =====
-- The callbacks that only read (src/fs.rs): `lookup`, `getattr`, `open` and `readdir`.
mod Parts
use pgfs.Prelude.{
  ℕ, ◌≡◌, ◌∙◌, refl, Bool, true, false, Option, none, some, List, [], ◌∷◌, arith, Str,
  if◌then◌else◌, Bool-cases, Option-cases, inl, inr,
}
use pgfs.Path.{join}
use pgfs.Metrics.{fetch_add, replica_read_count, Metrics, Counter, check_liveness}
use pgfs.Inodes.{ino_for}
use pgfs.Db.Rows.{children, find_entry, Tables, FileMeta, Result, ok, err, panic}
use pgfs.Db.Exec.{Db, Exec, Standby, gets, query}
use pgfs.Db.Replica.{
  meta_of, metas_of, standby_query, count_metric, getattr, list, replica_state,
  replica_fresh_cached, route, getattr_at, list_at, getattr_primary, list_primary,
  record_replica_fallback_if_configured,
}
use pgfs.Db.Atomic.{getattr_primary-Reads}
use pgfs.Db.Atomic.Whole.{Reads, Reads-query, Reads-lift, Reads-bind}
use pgfs.Fs.State.{
  DirEntry, Reply, PgFs, Handler, reply, count, on_result, on_ok, on_some, with_ino, with_path,
  resolved, with_resolved, maybe_dump_state, callback_preamble,
}
use pgfs.Fs.Attributes.{lookup, getattr_of, reply_attr, reply_root}
use pgfs.Fs.Files.{open_ino}
use pgfs.Fs.Session.{
  Call, dispatch, lookups, getattrs, setattrs, opens, reads, writes, flushes, fsyncs, releases,
  creates, mkdirs, unlinks, rmdirs, renames, readdirs,
}
use pgfs.Fs.Entries.{readdir, listing, child_entries}
use Parts.{
  LeavesTables, leaves_rules, LeavesTables-reply, LeavesTables-count, LeavesTables-on_result,
  LeavesTables-on_ok, LeavesTables-on_some, LeavesTables-with_ino, LeavesTables-with_path,
  LeavesTables-resolved, LeavesTables-with_resolved, LeavesTables-if,
  LeavesTables-callback_preamble, LeavesTables-tell,
}

lookup-LeavesTables : (t i : ℕ) (n : Option Str) → LeavesTables (lookup t i n)
unfolding lookup
lookup-LeavesTables t i n = search (leaves_rules, LeavesTables-tell) depth 10

reply_attr-LeavesTables : (i : ℕ) (o : Option FileMeta) → LeavesTables (reply_attr i o)
unfolding reply_attr
reply_attr-LeavesTables i none = LeavesTables-reply _
reply_attr-LeavesTables i (some m) = record { at = λ fs. refl }

reply_root-LeavesTables : LeavesTables reply_root
unfolding reply_root
reply_root-LeavesTables = record { at = λ fs. refl }

getattr_of-LeavesTables : (t i : ℕ) → LeavesTables (getattr_of t i)
unfolding getattr_of
getattr_of-LeavesTables t i =
    search (leaves_rules, reply_attr-LeavesTables, reply_root-LeavesTables) depth 10

open_ino-LeavesTables : (t i : ℕ) → LeavesTables (open_ino t i)
unfolding open_ino
open_ino-LeavesTables t i =
    LeavesTables-callback_preamble _ _
      (LeavesTables-count _ _ (LeavesTables-with_path _ _ λ path. record { at = λ fs. refl }))

child_entries-LeavesTables :
    (path : Str) (ms : List FileMeta) (fs : PgFs)
    → (child_entries path ms fs).1.db.tables ≡ fs.db.tables
unfolding child_entries
child_entries-LeavesTables path [] fs = refl
child_entries-LeavesTables path (m ∷ ms) fs =
    child_entries-LeavesTables path ms
      (record fs { inodes = (ino_for (join path m.name) fs.inodes).1 })

listing-LeavesTables :
    (full : List DirEntry → DirEntry → Bool) (offset ino : ℕ) (path : Str) (parent_ino : ℕ)
    (metas : List FileMeta)
    → LeavesTables (listing full offset ino path parent_ino metas)
unfolding listing
listing-LeavesTables full offset ino path parent_ino metas = record {
  at = λ fs. child_entries-LeavesTables path metas fs;
}

readdir-LeavesTables :
    (full : List DirEntry → DirEntry → Bool) (t i offset : ℕ)
    → LeavesTables (readdir full t i offset)
unfolding readdir
readdir-LeavesTables full t i offset = search (leaves_rules, listing-LeavesTables) depth 12

not_both : false ≡ true → ⊥
not_both h = absurd (ground (arith, h))

abbrev pub only_reads : Call → Bool
only_reads (lookups t i n) = true
only_reads (getattrs t i) = true
only_reads (setattrs t i size) = false
only_reads (opens t i) = true
only_reads (reads t i fh offset size) = false
only_reads (writes t i fh offset buf) = false
only_reads (flushes t i fh) = false
only_reads (fsyncs t i fh) = false
only_reads (releases i fh) = false
only_reads (creates t wall i n) = false
only_reads (mkdirs t i n) = false
only_reads (unlinks t i n) = false
only_reads (rmdirs t i n) = false
only_reads (renames t i n j m flags) = false
only_reads (readdirs full t i offset) = true

-- The callbacks `lookup`, `getattr`, `open` and `readdir` never change the tables, whatever they
-- are called with and whichever statements fail.
pub dispatch-only_reads :
    (c : Call) (fs : PgFs) → only_reads c ≡ true → (dispatch c fs).0.db.tables ≡ fs.db.tables
unfolding dispatch
dispatch-only_reads (lookups t i n) fs h = (lookup-LeavesTables t i n).at fs
dispatch-only_reads (getattrs t i) fs h = (getattr_of-LeavesTables t i).at fs
dispatch-only_reads (opens t i) fs h = (open_ino-LeavesTables t i).at fs
dispatch-only_reads (readdirs full t i offset) fs h = (readdir-LeavesTables full t i offset).at fs
dispatch-only_reads (setattrs t i size) fs h = absurd (not_both h)
dispatch-only_reads (reads t i fh offset size) fs h = absurd (not_both h)
dispatch-only_reads (writes t i fh offset buf) fs h = absurd (not_both h)
dispatch-only_reads (flushes t i fh) fs h = absurd (not_both h)
dispatch-only_reads (fsyncs t i fh) fs h = absurd (not_both h)
dispatch-only_reads (releases i fh) fs h = absurd (not_both h)
dispatch-only_reads (creates t wall i n) fs h = absurd (not_both h)
dispatch-only_reads (mkdirs t i n) fs h = absurd (not_both h)
dispatch-only_reads (unlinks t i n) fs h = absurd (not_both h)
dispatch-only_reads (rmdirs t i n) fs h = absurd (not_both h)
dispatch-only_reads (renames t i n j m flags) fs h = absurd (not_both h)
