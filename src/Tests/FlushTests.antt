-- ===== src/Tests/FlushTests.antt =====
-- The flush of a handle's buffer (src/fs.rs, src/db.rs `write_blocks_batch`).
use pgfs.Prelude.{◌≡◌, refl, some, [], ◌∷◌, codes, arith, str_key, nat_key}
use pgfs.Dict.{get}
use pgfs.Handle
use pgfs.Handle.{HandleBuffer}
use pgfs.Handle.Write.{IsMap}
use pgfs.Db.Rows.{ok}
use pgfs.Db.Exec.{Db}
use pgfs.Db.Content.{write_blocks_batch}
use pgfs.Db.Content.Whole.{calm}
use pgfs.Db.Content.Batch.{Flushes, write_blocks_batch-Flushes}
use pgfs.Db.Content.Flush.{Lands, write_blocks_batch-write}
use pgfs.Fs.State.{fresh_handle}
use pgfs.Tests.DbTests.{one_file}
use pgfs.Tests.ContentTests.{row, meta, one_file-Has}

one_block-IsMap : IsMap ((0, 9 ∷ []) ∷ [])
unfolding get
one_block-IsMap = (refl, omega arith, tt)

write_blocks_batch-Flushes_example :
    (s' : Db) × (write_blocks_batch [] (codes "a") ((0, 9 ∷ []) ∷ []) 1 (calm one_file)
      ≡ (ok tt, calm s'))
    × Flushes [] (codes "a") ((0, 9 ∷ []) ∷ []) 1 row one_file s'
write_blocks_batch-Flushes_example =
    write_blocks_batch-Flushes [] (codes "a") ((0, 9 ∷ []) ∷ []) 1 (omega arith) row meta one_file
      one_block-IsMap one_file-Has

-- The file has five bytes other than 0; the write of its last byte loses the other four.
write_blocks_batch-write_example :
    (h : HandleBuffer) × (Handle.write 4 (9 ∷ []) (fresh_handle [] (codes "a")) ≡ some h)
    × ((s' : Db) × (write_blocks_batch [] (codes "a") h.dirty_blocks h.max_size (calm one_file)
          ≡ (ok tt, calm s'))
        × Lands [] (codes "a") 4 (9 ∷ []) s')
write_blocks_batch-write_example =
    write_blocks_batch-write [] (codes "a") 4 (9 ∷ []) row meta one_file (omega arith) (omega arith)
      one_file-Has
