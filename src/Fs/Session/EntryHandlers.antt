-- ===== src/Fs/Session/EntryHandlers.antt =====
-- The callbacks of src/fs.rs on directory entries, and the tables of inodes and of handles.
use pgfs.Prelude.{ℕ, Bool, Option, none, some, List, [], ◌∷◌, Str, nat_key}
use pgfs.Path.{join}
use pgfs.Inodes.Consistent.{ino_for-IsConsistent, forget-IsConsistent, rekey_maps-IsConsistent}
use pgfs.Db.Rows.{Kind, file, dir, FileMeta, Result, ok, err, panic}
use pgfs.Fs.State.{Errno, PgFs, DirEntry, Handler}
use pgfs.Fs.Entries.{
  create, mkdir, unlink, rmdir, rename, readdir, rename_resolved, compatible, checked, moved,
  child_entries, refuse, open_new, forgetting, reply_created, reply_directory_entry, rekeyed,
  listing,
}
use pgfs.Fs.Handles.{next-HasHandles}
use pgfs.Fs.Invariant.{Keeps, IsSound, Keeps-reply, keeps_rules}

refuse-Keeps : (e : Errno) → Keeps (refuse e)
unfolding refuse
refuse-Keeps e = Keeps-reply _

Keeps-open_new : (p n : Str) (k : ℕ → Handler) → ((fh : ℕ) → Keeps (k fh)) → Keeps (open_new p n k)
Keeps-open_new p n k h = record {
  at = λ fs s. (h fs.next_fh).at _ (s.0, next-HasHandles _ _ _ s.1 _);
}

reply_created-Keeps : (wall fh ino : ℕ) → Keeps (reply_created wall fh ino)
reply_created-Keeps wall fh ino = record { at = λ fs s. s }

reply_directory_entry-Keeps : (ino : ℕ) → Keeps (reply_directory_entry ino)
reply_directory_entry-Keeps ino = record { at = λ fs s. s }

pub create-Keeps : (t wall i : ℕ) (n : Option Str) → Keeps (create t wall i n)
unfolding create
create-Keeps t wall i n = search (keeps_rules, Keeps-open_new, reply_created-Keeps) depth 12

pub mkdir-Keeps : (t i : ℕ) (n : Option Str) → Keeps (mkdir t i n)
unfolding mkdir
mkdir-Keeps t i n = search (keeps_rules, reply_directory_entry-Keeps) depth 12

forgetting-Keeps : (p : Str) → Keeps (forgetting p)
forgetting-Keeps p = record { at = λ fs s. (forget-IsConsistent p fs.inodes s.0, s.1) }

pub unlink-Keeps : (t i : ℕ) (n : Option Str) → Keeps (unlink t i n)
unfolding unlink
unlink-Keeps t i n = search (keeps_rules, forgetting-Keeps) depth 12

pub rmdir-Keeps : (t i : ℕ) (n : Option Str) → Keeps (rmdir t i n)
unfolding rmdir
rmdir-Keeps t i n = search (keeps_rules, forgetting-Keeps) depth 12

compatible-Keeps : (a b : Kind) (p : Str) (k : Handler) → Keeps k → Keeps (compatible a b p k)
unfolding compatible
compatible-Keeps file dir p k h = refuse-Keeps _
compatible-Keeps dir file p k h = refuse-Keeps _
compatible-Keeps dir dir p k h = search (keeps_rules, refuse-Keeps)
compatible-Keeps file file p k h = h

checked-Keeps :
    (a : Kind) (r : Result (Option FileMeta)) (p : Str) (k : Handler)
    → Keeps k
    → Keeps (checked a r p k)
unfolding checked
checked-Keeps a (ok (some m)) p k h = compatible-Keeps a m.kind p k h
checked-Keeps a (ok none) p k h = h
checked-Keeps a (err e) p k h = h
checked-Keeps a panic p k h = Keeps-reply _

rekeyed-Keeps : (p q : Str) → Keeps (rekeyed p q)
rekeyed-Keeps p q = record { at = λ fs s. (rekey_maps-IsConsistent p q fs.inodes s.0, s.1) }

moved-Keeps : (p n q m : Str) → Keeps (moved p n q m)
unfolding moved
moved-Keeps p n q m = search (keeps_rules, rekeyed-Keeps)

rename_resolved-Keeps : (p n q m : Str) → Keeps (rename_resolved p n q m)
unfolding rename_resolved
rename_resolved-Keeps p n q m =
    search (keeps_rules, refuse-Keeps, checked-Keeps, moved-Keeps) depth 12

pub rename-Keeps :
    (t i : ℕ) (n : Option Str) (j : ℕ) (m : Option Str) (flags : ℕ) → Keeps (rename t i n j m flags)
unfolding rename
rename-Keeps t i n j m flags = search (keeps_rules, refuse-Keeps, rename_resolved-Keeps) depth 12

child_entries-IsSound :
    (path : Str) (ms : List FileMeta) (fs : PgFs)
    → IsSound fs
    → IsSound (child_entries path ms fs).1
unfolding child_entries
child_entries-IsSound path [] fs s = s
child_entries-IsSound path (m ∷ ms) fs s =
    child_entries-IsSound path ms _ (ino_for-IsConsistent (join path m.name) fs.inodes s.0, s.1)

listing-Keeps :
    (full : List DirEntry → DirEntry → Bool) (offset ino : ℕ) (path : Str) (parent_ino : ℕ)
    (metas : List FileMeta)
    → Keeps (listing full offset ino path parent_ino metas)
unfolding listing
listing-Keeps full offset ino path parent_ino metas = record {
  at = λ fs s. child_entries-IsSound path metas fs s;
}

pub readdir-Keeps :
    (full : List DirEntry → DirEntry → Bool) (t i offset : ℕ) → Keeps (readdir full t i offset)
unfolding readdir
readdir-Keeps full t i offset = search (keeps_rules, listing-Keeps) depth 12
