-- ===== src/Tests/ContentTests.antt =====
-- Reading what was written (src/db.rs `read_range`, `write_range`).
use pgfs.Prelude.{str_beq, ◌≡◌, refl, some, [], ◌∷◌, codes, arith, min, ◌-◌, str_key, nat_key}
use pgfs.Block.{Bytes}
use pgfs.Db.Rows.{EntryRow, FileMeta, file, ok, row_to_meta, find_entry}
use pgfs.Db.Exec.{Db}
use pgfs.Db.Content.{read_range, write_range}
use pgfs.Db.Content.Whole.{calm, Has, Wrote, write_range-Wrote}
use pgfs.Db.Content.RoundTrip.{Reading, read_range-Reading, read_range-write_range}
use pgfs.Tests.DbTests.{one_file}

abbrev pub row : EntryRow
row = record { parent = []; name = codes "a"; kind = codes "file"; size = 5; mtime = 0 }

abbrev pub meta : FileMeta
meta = record { name = codes "a"; kind = file; size = 5; mtime = 0 }

pub one_file-Has : Has [] (codes "a") row meta one_file
unfolding find_entry row_to_meta str_beq
one_file-Has = record { found = refl; attributes = refl; table = (refl, omega arith, tt) }

write_range-Wrote_example :
    (s' : Db) × (write_range [] (codes "a") 3 (8 ∷ 9 ∷ 7 ∷ []) (calm one_file) ≡ (ok tt, calm s'))
    × Wrote [] (codes "a") 3 (8 ∷ 9 ∷ 7 ∷ []) row one_file s'
write_range-Wrote_example =
    write_range-Wrote [] (codes "a") 3 (8 ∷ 9 ∷ 7 ∷ []) row meta one_file (omega arith)
      (omega arith) one_file-Has

read_range-Reading_example :
    (bytes : Bytes) × ((read_range [] (codes "a") 2 9 (calm one_file)).0 ≡ ok (some bytes))
    × Reading [] (codes "a") 2 (min 9 (5 - 2)) one_file.tables.blocks bytes
read_range-Reading_example =
    read_range-Reading [] (codes "a") 2 9 row meta one_file refl (omega arith) one_file-Has

read_range-write_range_example :
    (s' : Db) × (write_range [] (codes "a") 3 (8 ∷ 9 ∷ 7 ∷ []) (calm one_file) ≡ (ok tt, calm s'))
    × ((read_range [] (codes "a") 3 3 (calm s')).0 ≡ ok (some (8 ∷ 9 ∷ 7 ∷ [])))
read_range-write_range_example =
    read_range-write_range [] (codes "a") 3 (8 ∷ 9 ∷ 7 ∷ []) row meta one_file (omega arith)
      (omega arith) refl one_file-Has
