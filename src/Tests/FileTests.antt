-- ===== src/Tests/FileTests.antt =====
-- Files as lists of bytes (src/db.rs `write_range`, `truncate`, `read_range`).
use pgfs.Prelude.{
  ℕ, ◌≡◌, ◌<◌, ◌^◌, refl, arith, some, [], ◌∷◌, codes, str_key, nat_key, str_beq, get_or,
}
use pgfs.Block.{Bytes}
use pgfs.Db.Rows.{ok}
use pgfs.Db.Exec.{Db, ◌>>◌}
use pgfs.Db.Content.{read_range, truncate}
use pgfs.Db.Content.Stored.{file_byte}
use pgfs.Db.Content.Whole.{calm}
use pgfs.Db.Content.Truncate.{Truncated, truncate-Truncated}
use pgfs.Db.Content.File.{Holds}
use pgfs.Db.Content.Stale.{read_range-truncate-truncate}
use pgfs.Tests.DbTests.{one_file}
use pgfs.Tests.ContentTests.{row, meta, one_file-Has}

truncate-Truncated_example :
    (s' : Db) × (truncate [] (codes "a") 2 (calm one_file) ≡ (ok tt, calm s'))
    × Truncated [] (codes "a") 2 row meta one_file s'
truncate-Truncated_example =
    truncate-Truncated [] (codes "a") 2 row meta one_file (omega arith) refl one_file-Has

abbrev pub five : Bytes
five = 1 ∷ 2 ∷ 3 ∷ 4 ∷ 5 ∷ []

five_bytes :
    (i : ℕ) → i < 2 ^ 47 → file_byte [] (codes "a") one_file.tables.blocks i ≡ get_or five i 0
unfolding str_beq
five_bytes i h = ground arith

pub one_file-Holds : Holds [] (codes "a") five one_file
one_file-Holds = record {
  row = row;
  attributes = meta;
  has = one_file-Has;
  is_file = refl;
  size = refl;
  fits = omega arith;
  at_byte = five_bytes;
}

-- A file that is emptied and extended again reads as before.
read_range-truncate-truncate_example :
    (s' : Db) × ((truncate [] (codes "a") 0 >> truncate [] (codes "a") 5) (calm one_file)
      ≡ (ok tt, calm s'))
    × ((read_range [] (codes "a") 0 5 (calm s')).0 ≡ ok (some (1 ∷ 2 ∷ 3 ∷ 4 ∷ 5 ∷ [])))
read_range-truncate-truncate_example =
    read_range-truncate-truncate [] (codes "a") five 0 one_file refl (omega arith) (omega arith)
      one_file-Holds
