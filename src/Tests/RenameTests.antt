-- ===== src/Tests/RenameTests.antt =====
-- A directory that is renamed (src/db.rs `Db::rename`).
use pgfs.Prelude.{◌≡◌, refl, arith, [], ◌∷◌, codes, str_key, str_beq}
use pgfs.Path.{join}
use pgfs.Db.Rows.{ok, EntryRow, FileMeta, dir, row_to_meta, find_entry, has_children}
use pgfs.Db.Exec.{Db}
use pgfs.Db.Names.{rename}
use pgfs.Db.Names.Rename.{CanMove}
use pgfs.Db.Names.Tree.{CanMoveTree, RenamesTree}
use pgfs.Db.Names.Directory.{rename-RenamesTree}
use pgfs.Db.Content.Whole.{calm, Has}
use pgfs.Tests.DbTests.{one_file}

abbrev row_d : EntryRow
row_d = record { parent = []; name = codes "d"; kind = codes "dir"; size = 0; mtime = 0 }

abbrev meta_d : FileMeta
meta_d = record { name = codes "d"; kind = dir; size = 0; mtime = 0 }

-- The directory `d` with the file `f`, which has one block.
abbrev tree : Db
tree = record one_file {
  tables = record {
    entries =
        row_d
        ∷ record { parent = codes "d"; name = codes "f"; kind = codes "file"; size = 2; mtime = 0 }
        ∷ [];
    blocks = record { parent = codes "d"; name = codes "f"; block_no = 0; bytes = 1 ∷ 2 ∷ [] } ∷ [];
  };
}

tree-Has : Has [] (codes "d") row_d meta_d tree
unfolding find_entry row_to_meta str_beq
tree-Has = record { found = refl; attributes = refl; table = (refl, omega arith, tt) }

tree-CanMove : CanMove [] (codes "d") [] (codes "e") tree
unfolding find_entry has_children join str_beq
tree-CanMove = record {
  different = refl;
  keyed = (refl, (refl, tt));
  table = (refl, omega arith, tt);
  nothing_below = refl;
  no_orphans = λ e k. refl;
}

tree-CanMoveTree : CanMoveTree [] (codes "d") [] (codes "e") tree
unfolding find_entry join str_beq
tree-CanMoveTree = record {
  plain = refl;
  short = omega arith;
  source_outside = refl;
  target_outside = refl;
  above = refl;
  no_entries = λ x u b. refl;
  no_blocks = λ x u k b. refl;
}

rename-RenamesTree_example :
    (s' : Db) × (rename [] (codes "d") [] (codes "e") (calm tree) ≡ (ok tt, calm s'))
    × RenamesTree [] (codes "d") [] (codes "e") row_d tree s'
rename-RenamesTree_example =
    rename-RenamesTree [] (codes "d") [] (codes "e") row_d meta_d tree tree-Has tree-CanMove
      tree-CanMoveTree refl
