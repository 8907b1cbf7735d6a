-- ===== src/Tests/DbTests.antt =====
-- The database under failing statements (src/db.rs).
use pgfs.Prelude.{true, none, [], ◌∷◌, refl, codes, str_key, nat_key}
use pgfs.Metrics
use pgfs.Db.Exec.{Db, fine, failed}
use pgfs.Db.Operations.{renames, run, run-AllOrNothing}
use pgfs.Db.Atomic.Whole.{AllOrNothing}

-- A server with the file `a` of five bytes, whose third statement from now on fails.
abbrev pub one_file : Db
one_file = record {
  tables = record {
    entries =
        record { parent = []; name = codes "a"; kind = codes "file"; size = 5; mtime = 0 } ∷ [];
    blocks =
        record { parent = []; name = codes "a"; block_no = 0; bytes = 1 ∷ 2 ∷ 3 ∷ 4 ∷ 5 ∷ [] } ∷ [];
  };
  faults = fine ∷ fine ∷ failed ∷ [];
  now = 7;
  name_le = λ a b. true;
  primary_lsn = none;
  replica = none;
  freshness_cached = true;
  freshness_checked_at = none;
  metrics = Metrics.init;
}

run-AllOrNothing_example : AllOrNothing (run (renames [] (codes "a") [] (codes "b"))) one_file
run-AllOrNothing_example = run-AllOrNothing (renames [] (codes "a") [] (codes "b")) one_file refl
