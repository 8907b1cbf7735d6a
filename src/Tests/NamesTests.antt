-- ===== src/Tests/NamesTests.antt =====
-- Directory entries (src/db.rs `unlink`, `create`, `mkdir`).
use pgfs.Prelude.{◌≡◌, refl, not, ◌&&◌, [], codes, arith, str_key, str_beq}
use pgfs.Path.{join}
use pgfs.Db.Rows.{ok, EntryRow, FileMeta, file, row_to_meta, find_entry, has_children}
use pgfs.Db.Exec.{Db}
use pgfs.Db.Names.{unlink, create, mkdir, rmdir, rename}
use pgfs.Db.Names.Rmdir.{is_some, Rmdirs, rmdir-Rmdirs}
use pgfs.Db.Names.Rename.{CanMove, Renames, rename-Renames}
use pgfs.Db.Names.Unlink.{Unlinks, unlink-Unlinks}
use pgfs.Db.Names.Insert.{Inserts, insert-Inserts}
use pgfs.Db.Content.Whole.{calm, Has}
use pgfs.Tests.DbTests.{one_file}

unlink-Unlinks_example :
    (s' : Db) × (unlink [] (codes "a") (calm one_file) ≡ (ok tt, calm s'))
    × Unlinks [] (codes "a") one_file s'
unlink-Unlinks_example = unlink-Unlinks [] (codes "a") one_file

insert-Inserts_example :
    ((s' : Db) × (create [] (codes "b") (calm one_file) ≡ (ok tt, calm s'))
      × Inserts (codes "file") [] (codes "b") one_file s')
    × ((s' : Db) × (mkdir [] (codes "b") (calm one_file) ≡ (ok tt, calm s'))
        × Inserts (codes "dir") [] (codes "b") one_file s')
insert-Inserts_example = insert-Inserts [] (codes "b") one_file

rmdir-Rmdirs_example :
    (s' : Db) × (rmdir [] (codes "a") (calm one_file) ≡ (
      ok (
          is_some (find_entry [] (codes "a") one_file.tables.entries)
          && not (has_children (join [] (codes "a")) one_file.tables.entries)),
      calm s',
    ))
    × Rmdirs [] (codes "a") one_file s'
rmdir-Rmdirs_example = rmdir-Rmdirs [] (codes "a") one_file

abbrev row_a : EntryRow
row_a = record { parent = []; name = codes "a"; kind = codes "file"; size = 5; mtime = 0 }

abbrev meta_a : FileMeta
meta_a = record { name = codes "a"; kind = file; size = 5; mtime = 0 }

one_file-Has : Has [] (codes "a") row_a meta_a one_file
unfolding find_entry row_to_meta str_beq
one_file-Has = record { found = refl; attributes = refl; table = (refl, omega arith, tt) }

one_file-CanMove : CanMove [] (codes "a") [] (codes "b") one_file
unfolding find_entry has_children join str_beq
one_file-CanMove = record {
  different = refl;
  keyed = (refl, tt);
  table = (refl, omega arith, tt);
  nothing_below = refl;
  no_orphans = λ e k. refl;
}

rename-Renames_example :
    (s' : Db) × (rename [] (codes "a") [] (codes "b") (calm one_file) ≡ (ok tt, calm s'))
    × Renames [] (codes "a") [] (codes "b") row_a one_file s'
rename-Renames_example =
    rename-Renames [] (codes "a") [] (codes "b") row_a meta_a one_file one_file-Has one_file-CanMove
      refl
