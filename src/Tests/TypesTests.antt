-- ===== src/Tests/TypesTests.antt =====
-- A session on one file under failing statements (src/db.rs).
use pgfs.Prelude.{◌≡◌, refl, inl, List, [], ◌∷◌, Str, codes, str_key, str_beq, arith}
use pgfs.Db.Rows.{find_entry, err, db_error}
use pgfs.Db.Replica.{getattr_primary, list_primary}
use pgfs.Db.Operations.{Operation, writes, truncates, flushes, mkdirs, renames, run}
use pgfs.Db.Names.{mkdir, rename}
use pgfs.Db.Keys.{HasKeys}
use pgfs.Db.Types.{AreTyped}
use pgfs.Db.Types.Session.{IsAnswer, run_all, run_all-AreTyped}
use pgfs.Tests.DbTests.{one_file}

-- The start of the transaction of the first rename is the statement that fails.
abbrev session : List Operation
session =
    mkdirs [] (codes "d")
    ∷ renames [] (codes "a") (codes "d") (codes "b")
    ∷ renames [] (codes "a") (codes "d") (codes "b")
    ∷ writes (codes "d") (codes "b") 4 (7 ∷ 8 ∷ [])
    ∷ flushes (codes "d") (codes "b") ((1, 9 ∷ []) ∷ []) 9000
    ∷ truncates (codes "d") (codes "b") 3
    ∷ []

first_rename_fails :
    (run
      (renames [] (codes "a") (codes "d") (codes "b"))
      (run (mkdirs [] (codes "d")) one_file).1).0
    ≡ err db_error
unfolding mkdir rename str_beq
first_rename_fails = refl

run_all-AreTyped_example :
    (HasKeys (run_all session one_file).tables × AreTyped (run_all session one_file).tables)
    × ((p n : Str) → IsAnswer (getattr_primary p n (run_all session one_file)).0)
    × ((p : Str) → IsAnswer (list_primary p (run_all session one_file)).0)
unfolding find_entry
run_all-AreTyped_example =
    run_all-AreTyped session one_file
      (tt, (tt, (tt, (omega arith, (((omega arith, tt), omega arith), (omega arith, tt))))))
      ((refl, tt), (refl, omega arith, tt)) ((inl refl, omega arith), tt)
