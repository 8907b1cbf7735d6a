-- ===== src/Db/Types/Session.antt =====
-- Sessions of operations of src/db.rs: the tables keep their keys and types, and so `getattr_primary`
-- and `list_primary` find no row that they cannot read.
use pgfs.Prelude.{
  ◌+◌, ◌≡◌, ◌⊎◌, inl, inr, refl, ap, arith, Bool, true, false, ◌==◌, str_beq, str_key, Option, none,
  some, List, [], ◌∷◌, Str, codes, Each, Each-if, length, if◌then◌else◌,
}
use pgfs.Db.Rows.{
  EntryRow, FileMeta, Tables, Result, ok, err, db_error, file, dir, row_to_meta, find_entry,
  children, insert_by_name, is_entry,
}
use pgfs.Db.Exec.{Db, Fault, fine, failed, lost, lift, query, execute, ◌>>=◌}
use pgfs.Db.Replica.{meta_of, metas_of, getattr_primary, list_primary}
use pgfs.Db.Operations.{
  Operation, run, writes, truncates, overwrites, flushes, creates, mkdirs, unlinks, rmdirs, renames,
}
use pgfs.Db.Keys.{HasKeys}
use pgfs.Db.Keys.Contents.{AreI32}
use pgfs.Db.Keys.Operations.{HasNumbers, run-HasKeys}
use pgfs.Db.Types.{IsSize, IsTyped, AreTyped}
use pgfs.Db.Types.Contents.{
  write_range-Keeps, truncate-Keeps, write-Keeps, write_blocks_batch-Keeps,
}
use pgfs.Db.Types.Entries.{create-Keeps, mkdir-Keeps, unlink-Keeps, rmdir-Keeps, rename-Keeps}

-- One operation after the other, whether or not the one before failed.
abbrev pub run_all : List Operation → Db → Db
run_all [] s = s
run_all (op ∷ ops) s = run_all ops (run op s).1

-- The sizes that an operation leads to are no negative `bigint`s, and the blocks of a flush have
-- numbers that are `i32`.
abbrev pub Fits : Operation → Type 0
Fits (writes p n offset buf) = IsSize (offset + length buf)
Fits (truncates p n size) = IsSize size
Fits (overwrites p n buf) = IsSize (length buf)
Fits (flushes p n blocks size) = AreI32 blocks × IsSize size
Fits (creates p n) = Unit {0}
Fits (mkdirs p n) = Unit {0}
Fits (unlinks p n) = Unit {0}
Fits (rmdirs p n) = Unit {0}
Fits (renames p n q m) = Unit {0}

-- The answer of the operation, or a failure of the database.
abbrev pub IsAnswer : {A : Type 0} → Result A → Type 0
IsAnswer {A = A} r = ((a : A) × (r ≡ ok a)) ⊎ (r ≡ err db_error)

Fits-HasNumbers : (op : Operation) → Fits op → HasNumbers op
Fits-HasNumbers (writes p n offset buf) h = tt
Fits-HasNumbers (truncates p n size) h = tt
Fits-HasNumbers (overwrites p n buf) h = tt
Fits-HasNumbers (flushes p n blocks size) h = h.0
Fits-HasNumbers (creates p n) h = tt
Fits-HasNumbers (mkdirs p n) h = tt
Fits-HasNumbers (unlinks p n) h = tt
Fits-HasNumbers (rmdirs p n) h = tt
Fits-HasNumbers (renames p n q m) h = tt

run-AreTyped :
    (op : Operation) (s : Db) → Fits op → AreTyped s.tables → AreTyped (run op s).1.tables
run-AreTyped (writes p n offset buf) s i h = (write_range-Keeps p n offset buf i).at s h
run-AreTyped (truncates p n size) s i h = (truncate-Keeps p n size i).at s h
run-AreTyped (overwrites p n buf) s i h = (write-Keeps p n buf i).at s h
run-AreTyped (flushes p n blocks size) s i h = (write_blocks_batch-Keeps p n blocks size i.1).at s h
run-AreTyped (creates p n) s i h = (create-Keeps p n).at s h
run-AreTyped (mkdirs p n) s i h = (mkdir-Keeps p n).at s h
run-AreTyped (unlinks p n) s i h = (unlink-Keeps p n).at s h
run-AreTyped (rmdirs p n) s i h = (rmdir-Keeps p n).at s h
run-AreTyped (renames p n q m) s i h = (rename-Keeps p n q m).at s h

run_all-keeps :
    (ops : List Operation) (s : Db)
    → Each Fits ops
    → HasKeys s.tables
    → AreTyped s.tables
    → HasKeys (run_all ops s).tables × AreTyped (run_all ops s).tables
run_all-keeps [] s i k h = (k, h)
run_all-keeps (op ∷ ops) s (i, is) k h =
    run_all-keeps ops (run op s).1 is (run-HasKeys op s (Fits-HasNumbers op i) k)
      (run-AreTyped op s i h)

-- A row that is typed can be read.
row_to_meta-ok : (r : EntryRow) → IsTyped r → (m : FileMeta) × (row_to_meta r ≡ ok m)
unfolding row_to_meta str_beq
row_to_meta-ok r (inl k, small) =
    let is_file : (r.kind == codes "file") ≡ true = ap (λ v. v == codes "file") k in
    (record { name = r.name; kind = file; size = r.size; mtime = r.mtime }, ground (arith, is_file))
row_to_meta-ok r (inr k, small) =
    let not_file : (r.kind == codes "file") ≡ false = ap (λ v. v == codes "file") k in
    let is_dir : (r.kind == codes "dir") ≡ true = ap (λ v. v == codes "dir") k in
    (
      record { name = r.name; kind = dir; size = r.size; mtime = r.mtime },
      ground (arith, not_file, is_dir),
    )

metas_of-ok :
    (rows : List EntryRow) → Each IsTyped rows → (ms : List FileMeta) × (metas_of rows ≡ ok ms)
unfolding metas_of
metas_of-ok [] h = ([], refl)
metas_of-ok (r ∷ rs) (h, hs) =
    let (m, e) = row_to_meta-ok r h in
    let (ms, es) = metas_of-ok rs hs in (m ∷ ms, ground (arith, e, es))

find_entry-ok :
    (p n : Str) (rows : List EntryRow)
    → Each IsTyped rows
    → (o : Option FileMeta) × (meta_of (find_entry p n rows) ≡ ok o)
unfolding find_entry meta_of
find_entry-ok p n [] h = (none, refl)
find_entry-ok p n (r ∷ rs) (h, hs) =
    let (m, e) = row_to_meta-ok r h in
    let (o, eo) = find_entry-ok p n rs hs in
    (if is_entry p n r then some m else o, ground (arith, e, eo))

insert_by_name-Each :
    (le : Str → Str → Bool) (r : EntryRow) (rows : List EntryRow)
    → IsTyped r
    → Each IsTyped rows
    → Each IsTyped (insert_by_name le r rows)
unfolding insert_by_name
insert_by_name-Each le r [] h hs = (h, tt)
insert_by_name-Each le r (x ∷ xs) h (k, hs) =
    Each-if IsTyped (le r.name x.name) (r ∷ x ∷ xs) (x ∷ insert_by_name le r xs) (h, (k, hs))
      (k, insert_by_name-Each le r xs h hs)

children-Each :
    (le : Str → Str → Bool) (p : Str) (rows : List EntryRow)
    → Each IsTyped rows
    → Each IsTyped (children le p rows)
unfolding children
children-Each le p [] h = tt
children-Each le p (r ∷ rs) (h, hs) =
    let rest = children-Each le p rs hs in
    Each-if IsTyped (r.parent == p) (insert_by_name le r (children le p rs)) (children le p rs)
      (insert_by_name-Each le r (children le p rs) h rest) rest

-- A query whose rows can be read gets an answer, unless it fails.
module _ {A B : Type 0} where
  query-IsAnswer :
      (f : Tables → A) (read : A → Result B) (fs : List Fault) (s : Db)
      → s.faults ≡ fs
      → (b : B) → read (f s.tables) ≡ ok b
      → IsAnswer ((query f >>= λ a. lift (read a)) s).0
  unfolding query execute
  query-IsAnswer f read [] s e b k = rw (e) (inl (b, k))
  query-IsAnswer f read (fine ∷ fs) s e b k = rw (e) (inl (b, k))
  query-IsAnswer f read (failed ∷ fs) s e b k = rw (e) (inr refl)
  query-IsAnswer f read (lost ∷ fs) s e b k = rw (e) (inr refl)

getattr_primary-IsAnswer :
    (p n : Str) (s : Db) → AreTyped s.tables → IsAnswer (getattr_primary p n s).0
unfolding getattr_primary
getattr_primary-IsAnswer p n s h =
    let (o, e) = find_entry-ok p n s.tables.entries h in
    query-IsAnswer (λ t. find_entry p n t.entries) meta_of s.faults s refl o e

list_primary-IsAnswer : (p : Str) (s : Db) → AreTyped s.tables → IsAnswer (list_primary p s).0
unfolding list_primary
list_primary-IsAnswer p s h =
    let (ms, e) =
      metas_of-ok (children s.name_le p s.tables.entries)
        (children-Each s.name_le p s.tables.entries h) in
    query-IsAnswer (λ t. children s.name_le p t.entries) metas_of s.faults s refl ms e

-- Start from tables whose primary keys hold and whose rows are files and directories with sizes that
-- are not negative. After any session of operations whose sizes fit a `bigint` and whose flushed
-- blocks have `i32` numbers, whichever of their statements fail, the tables are of this kind again,
-- and getattr_primary and list_primary give an answer or a failure of the database: they meet no
-- unexpected kind and no negative size.
pub run_all-AreTyped :
    (ops : List Operation) (s : Db)
    → Each Fits ops
    → HasKeys s.tables
    → AreTyped s.tables
    → (HasKeys (run_all ops s).tables × AreTyped (run_all ops s).tables)
      × ((p n : Str) → IsAnswer (getattr_primary p n (run_all ops s)).0)
      × ((p : Str) → IsAnswer (list_primary p (run_all ops s)).0)
run_all-AreTyped ops s i k h =
    let kept = run_all-keeps ops s i k h in
    (
      kept,
      (λ p n. getattr_primary-IsAnswer p n (run_all ops s) kept.1),
      λ p. list_primary-IsAnswer p (run_all ops s) kept.1,
    )
