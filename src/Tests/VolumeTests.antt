-- ===== src/Tests/VolumeTests.antt =====
-- The database as a map of names to directories and files (src/db.rs).
use pgfs.Prelude.{
  ℕ, ◌≤◌, ◌%◌, get_or-past, ◌≡◌, refl, arith, true, false, none, some, List, [], ◌∷◌, codes, inl,
  str_key, str_beq, nat_key,
}
use pgfs.Block.{Bytes, block_size}
use pgfs.Handle.{block_of}
use pgfs.Handle.Write.{byte_at, IsMap}
use pgfs.Dict.{Dict, get, put, remove}
use pgfs.Path.{join}
use pgfs.Db.Rows.{ok, file}
use pgfs.Db.Exec.{Db, fine, failed, lost}
use pgfs.Db.Content.Whole.{calm}
use pgfs.Db.Volume.{
  Action, AreAllowed, answers, after_all, act_all, has_below, has_tree, moved_tree, pair_key,
  creates, mkdirs, unlinks, rmdirs, stats, writes, truncates, flushes, renames, reads, done,
  removed, found, contents,
}
use pgfs.Db.Volume.Shows.{Represents}
use pgfs.Db.Operations
use pgfs.Db.Operations.{Operation}
use pgfs.Db.Types.Session.{run_all}
use pgfs.Db.Volume.Faults.{AreSafe, Kept, made, run_all-Represents}
use pgfs.Db.Volume.Session.{act_all-Represents, empty-Represents}
use pgfs.Tests.DbTests.{one_file}

abbrev empty_db : Db
empty_db = record one_file { tables = record { entries = []; blocks = [] } }

abbrev buffer : Dict ℕ Bytes
buffer = (0, 5 ∷ 6 ∷ []) ∷ []

buffer_ends : (i : ℕ) → 3 ≤ i → byte_at buffer i ≡ 0
unfolding get block_of
buffer_ends i h = ground (arith, get_or-past {A = ℕ} 0 (5 ∷ 6 ∷ []) (i % block_size))

buffer-IsMap : IsMap buffer
unfolding get
buffer-IsMap = (refl, omega arith, tt)

-- A file is written and moved into a directory, which then is not removed but renamed, and the file
-- is read there, before and after a flush of a buffer.
abbrev program : List Action
program =
    creates [] (codes "a")
    ∷ writes [] (codes "a") 2 (7 ∷ 8 ∷ [])
    ∷ mkdirs [] (codes "d")
    ∷ renames [] (codes "a") (codes "d") (codes "b")
    ∷ rmdirs [] (codes "d")
    ∷ renames [] (codes "d") [] (codes "e")
    ∷ stats (codes "e") (codes "b")
    ∷ truncates (codes "e") (codes "b") 3
    ∷ reads (codes "e") (codes "b") 0 9
    ∷ flushes (codes "e") (codes "b") buffer 2
    ∷ reads (codes "e") (codes "b") 1 9
    ∷ unlinks (codes "e") (codes "b")
    ∷ rmdirs [] (codes "e")
    ∷ stats [] (codes "d")
    ∷ []

program-answers :
    answers program []
    ≡ done
      ∷ done
      ∷ done
      ∷ done
      ∷ removed false
      ∷ done
      ∷ found (some (file, 4))
      ∷ done
      ∷ contents (some (0 ∷ 0 ∷ 7 ∷ []))
      ∷ done
      ∷ contents (some (6 ∷ 0 ∷ []))
      ∷ done
      ∷ removed true
      ∷ found none
      ∷ []
unfolding get put remove has_below has_tree moved_tree str_beq join block_of
program-answers = refl

program-AreAllowed : AreAllowed program []
unfolding get put remove has_below has_tree moved_tree str_beq join
program-AreAllowed = (
  tt,
  (
    (tt, omega arith, omega arith),
    (
      tt,
      (
        (refl, refl),
        (
          tt,
          (
            (
              refl,
              record {
                plain = refl;
                short = omega arith;
                source_outside = refl;
                target_outside = refl;
                above = refl;
                nothing_there = refl;
              },
            ),
            (
              tt,
              (
                (inl (λ e. absurd (omega (arith, e))), omega arith),
                (
                  omega arith,
                  (
                    (buffer_ends, buffer-IsMap, omega arith, omega arith),
                    (omega arith, (tt, (tt, (tt, tt)))),
                  ),
                ),
              ),
            ),
          ),
        ),
      ),
    ),
  ),
)

act_all-Represents_example :
    (s' : Db) × (act_all program (calm empty_db) ≡ (ok (answers program []), calm s'))
    × Represents (after_all program []) s'
act_all-Represents_example =
    act_all-Represents program [] empty_db (empty-Represents empty_db refl refl) program-AreAllowed

-- The statement of mkdir fails, and of rmdir the reply to the removal is lost.
abbrev faulty_db : Db
faulty_db = record empty_db { faults = fine ∷ failed ∷ fine ∷ lost ∷ [] }

abbrev operations : List Operation
operations =
    Operations.creates [] (codes "a")
    ∷ Operations.mkdirs [] (codes "d")
    ∷ Operations.rmdirs [] (codes "d")
    ∷ []

operations-AreSafe : AreSafe operations []
unfolding get put str_beq
operations-AreSafe = (
  refl,
  tt,
  (refl, tt, (refl, tt, tt, tt), (refl, tt, tt, tt)),
  (refl, tt, (refl, tt, tt, tt), (refl, tt, tt, tt)),
)

run_all-Represents_example :
    (ks : List Operation) × Kept operations faulty_db ks
    × Represents (made ks []) (run_all operations faulty_db)
run_all-Represents_example =
    run_all-Represents operations [] faulty_db (empty-Represents faulty_db refl refl)
      operations-AreSafe
