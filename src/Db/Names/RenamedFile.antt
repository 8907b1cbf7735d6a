-- ===== src/Db/Names/RenamedFile.antt =====
-- The contents of a file after `Db::rename` (src/db.rs).
use pgfs.Prelude.{ℕ, ◌/◌, ◌≡◌, arith, Str, str_key}
use pgfs.Block.{Bytes, block_size}
use pgfs.Db.Rows.{EntryRow, FileMeta, ok, row_to_meta}
use pgfs.Db.Exec.{Db}
use pgfs.Db.Names.Rename.{Renames}
use pgfs.Db.Content.Stored.{IsTable}
use pgfs.Db.Content.File.{Holds}

pub row_to_meta-moved :
    (r : EntryRow) (f : FileMeta) (q m : Str) (now : ℕ)
    → row_to_meta r ≡ ok f
    → row_to_meta (record r { parent = q; name = m; mtime = now })
      ≡ ok (record f { name = m; mtime = now })
unfolding row_to_meta
row_to_meta-moved r f q m now e = ground arith

-- The new name holds the file that the old one held.
pub Renames-Holds :
    (p n q m : Str) (f : Bytes) (s : Db) (h : Holds p n f s) (s' : Db)
    → Renames p n q m h.row s s'
    → IsTable s'.tables.blocks
    → Holds q m f s'
Renames-Holds p n q m f s h s' w table = record {
  row = record h.row { parent = q; name = m; mtime = s.now };
  attributes = record h.attributes { name = m; mtime = s.now };
  has = record {
    found = ground (arith, w.entries q m, str_key.same_iff q q, str_key.same_iff m m);
    attributes = row_to_meta-moved h.row h.attributes q m s.now h.has.attributes;
    table = table;
  };
  is_file = h.is_file;
  size = h.size;
  fits = h.fits;
  at_byte = λ i small. ground (
    arith,
    h.at_byte i small,
    w.blocks q m (i / block_size),
    str_key.same_iff q q,
    str_key.same_iff m m,
  );
}
