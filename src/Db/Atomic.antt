-- ===== src/Db/Atomic.antt =====
-- The operations of src/db.rs that run in a transaction are all or nothing, whatever statements fail.
mod Statements
pub mod Single
mod Bodies
pub mod Whole
use pgfs.Prelude.{
  ℕ, zero, suc, ◌+◌, ◌%◌, ◌≡◌, ◌≢◌, refl, ap, sym, ◌∙◌, ◌⊎◌, inl, inr, Bool, true, false, Option,
  none, some, List, [], ◌∷◌, arith, Str, if◌then◌else◌, u32_mod, ltb, leb, nat_beq, ◌==◌, str_key,
  ◌&&◌,
}
use pgfs.Dict.{Dict}
use pgfs.Path.{join}
use pgfs.Block.{Bytes}
use pgfs.Db.Rows.{
  Tables, Error, db_error, Result, ok, err, panic, Kind, file, dir, FileMeta, EntryRow, BlockRow,
}
use pgfs.Db.Exec.{
  Db, Fault, fine, failed, lost, Exec, pure, raise, lift, unwrap, gets, continue, ◌>>=◌, execute,
  query, update, commit, finish, transaction,
}
use pgfs.Db.Replica.{getattr_primary}
use pgfs.Db.Content.{
  write_block, write_rounds, set_size, write_range, patch_boundary, shrink, truncate, truncate_meta,
  upsert_all, write_blocks_batch,
}
use pgfs.Db.Names.{
  delete_row, delete_block_rows, replace_target, move_descendants, move_entry, rename_body,
  rename_meta, rename,
}
use pgfs.Db.Atomic.Statements.{
  no_faults, Honest, Honest-pure, Honest-raise, Honest-unwrap, Honest-lift, Honest-execute,
  Honest-query, Honest-if, Honest-gets-now, Honest-update, Honest-bind, honest_rules,
}
use pgfs.Db.Atomic.Bodies.{
  write_rounds-Honest, set_size-Honest, shrink-Honest, upsert_all-Honest, rename_body-Honest,
}
use pgfs.Db.Atomic.Whole.{
  AllOrNothing, Atomic, Reads, Atomic-pure, Atomic-raise, Atomic-transaction, Reads-query,
  Reads-lift, Reads-bind, Atomic-bind,
}

pub getattr_primary-Reads : (parent name : Str) → Reads (getattr_primary parent name)
unfolding getattr_primary
getattr_primary-Reads parent name = Reads-bind _ _ (Reads-query _) λ row. Reads-lift _

getattr_primary-Honest : (parent name : Str) → Honest (getattr_primary parent name)
unfolding getattr_primary
getattr_primary-Honest parent name = Honest-bind _ _ (Honest-query _) λ row. Honest-lift _

-- `write_range` is all or nothing, whichever statements fail: either it fails and the tables are as
-- before, or the tables are those that it leaves when no statement fails. So where it succeeds they
-- are the latter.
pub write_range-AllOrNothing :
    (parent name : Str) (offset : ℕ) (buf : Bytes) (s : Db)
    → AllOrNothing (write_range parent name offset buf) s
unfolding write_range
write_range-AllOrNothing parent name offset [] s = inr refl
write_range-AllOrNothing parent name offset (x ∷ xs) s =
    (Atomic-bind (getattr_primary parent name) _ (getattr_primary-Reads parent name)
        (getattr_primary-Honest parent name)
        λ meta. Atomic-transaction _ (
          Honest-bind _ _ (write_rounds-Honest _ parent name offset _ (x ∷ xs) _)
            λ _. set_size-Honest parent name _)).at
      s

Atomic-if :
    {A : Type 0} (b : Bool) (m n : Exec A) → Atomic m → Atomic n → Atomic (if b then m else n)
Atomic-if true m n hm hn = hm
Atomic-if false m n hm hn = hn

Atomic-kind :
    (k : Kind) (m n : Exec (Unit {0}))
    → Atomic m
    → Atomic n
    → Atomic (elim k [ file ↦ m | dir ↦ n ])
Atomic-kind file m n hm hn = hm
Atomic-kind dir m n hm hn = hn

truncate_meta-Atomic :
    (parent name : Str) (size : ℕ) (meta : Option FileMeta)
    → Atomic (truncate_meta parent name size meta)
unfolding truncate_meta
truncate_meta-Atomic parent name size none = Atomic-raise _
truncate_meta-Atomic parent name size (some m) =
    Atomic-kind m.kind _ _
      (Atomic-transaction _ (
        Honest-bind _ _ (Honest-if _ _ _ (shrink-Honest parent name size) (Honest-pure tt))
          λ _. set_size-Honest parent name size))
      (Atomic-raise _)

-- `truncate` is all or nothing in the same sense.
pub truncate-AllOrNothing :
    (parent name : Str) (size : ℕ) (s : Db) → AllOrNothing (truncate parent name size) s
unfolding truncate
truncate-AllOrNothing parent name size s =
    (Atomic-bind (getattr_primary parent name) _ (getattr_primary-Reads parent name)
        (getattr_primary-Honest parent name) (truncate_meta-Atomic parent name size)).at
      s

rename_meta-Atomic : (p n q m : Str) (meta : Option FileMeta) → Atomic (rename_meta p n q m meta)
unfolding rename_meta
rename_meta-Atomic p n q m none = Atomic-raise _
rename_meta-Atomic p n q m (some meta) = Atomic-transaction _ (rename_body-Honest p n q m meta)

-- `rename` is all or nothing in the same sense.
pub rename-AllOrNothing : (p n q m : Str) (s : Db) → AllOrNothing (rename p n q m) s
unfolding rename
rename-AllOrNothing p n q m s =
    (Atomic-if _ _ _ (Atomic-pure tt) (
        Atomic-bind (getattr_primary p n) _ (getattr_primary-Reads p n) (getattr_primary-Honest p n)
          (rename_meta-Atomic p n q m))).at
      s

known_size-Reads :
    (parent name : Str) (b : Bool) → Reads (if b then getattr_primary parent name else pure none)
known_size-Reads parent name true = getattr_primary-Reads parent name
known_size-Reads parent name false = record { at = λ s. refl }

-- `write_blocks_batch`, which flushes a handle, is all or nothing in the same sense.
pub write_blocks_batch-AllOrNothing :
    (parent name : Str) (blocks : Dict ℕ Bytes) (size : ℕ) (s : Db)
    → AllOrNothing (write_blocks_batch parent name blocks size) s
unfolding write_blocks_batch
write_blocks_batch-AllOrNothing parent name blocks size s =
    (Atomic-if _ _ _ (Atomic-pure tt) (
        Atomic-bind (if ltb 0 size then getattr_primary parent name else pure none) _
          (known_size-Reads parent name (ltb 0 size))
          (Honest-if _ _ _ (getattr_primary-Honest parent name) (Honest-pure none))
          λ meta. Atomic-transaction _ (
            Honest-bind _ _ (upsert_all-Honest parent name blocks)
              λ _. Honest-if _ _ _ (set_size-Honest parent name _) (Honest-pure tt)))).at
      s
