-- ===== src/Db/Atomic/Bodies.antt =====
-- The bodies of the transactions of src/db.rs.
use pgfs.Prelude.{ℕ, zero, suc, ◌+◌, ◌%◌, Option, none, some, List, [], ◌∷◌, Str, u32_mod, str_key}
use pgfs.Dict.{Dict}
use pgfs.Path.{join}
use pgfs.Block.{Bytes}
use pgfs.Db.Rows.{Kind, file, dir, FileMeta, EntryRow, BlockRow}
use pgfs.Db.Exec.{Exec}
use pgfs.Db.Content.{write_block, write_rounds, set_size, patch_boundary, shrink, upsert_all}
use pgfs.Db.Names.{
  delete_row, delete_block_rows, replace_target, move_descendants, move_entry, rename_body,
}
use pgfs.Db.Atomic.Statements.{
  Honest, Honest-pure, Honest-raise, Honest-query, Honest-if, Honest-update, Honest-bind,
  honest_rules,
}

write_block-Honest :
    (parent name : Str) (offset end : ℕ) (buf : Bytes) (b_no : ℕ)
    → Honest (write_block parent name offset end buf b_no)
unfolding write_block
write_block-Honest parent name offset end buf b_no = search honest_rules

pub write_rounds-Honest :
    (n : ℕ) (parent name : Str) (offset end : ℕ) (buf : Bytes) (b_no : ℕ)
    → Honest (write_rounds n parent name offset end buf b_no)
unfolding write_rounds
write_rounds-Honest zero parent name offset end buf b_no = Honest-pure tt
write_rounds-Honest (suc n) parent name offset end buf b_no =
    Honest-bind _ _ (write_block-Honest parent name offset end buf b_no)
      λ _. write_rounds-Honest n parent name offset end buf ((b_no + 1) % u32_mod)

pub set_size-Honest : (parent name : Str) (size : ℕ) → Honest (set_size parent name size)
unfolding set_size
set_size-Honest parent name size = search honest_rules

patch_boundary-Honest :
    (parent name : Str) (last rem : ℕ) (rows : List BlockRow)
    → Honest (patch_boundary parent name last rem rows)
patch_boundary-Honest parent name last rem [] = Honest-pure tt
patch_boundary-Honest parent name last rem (r ∷ rs) = Honest-update _

pub shrink-Honest : (parent name : Str) (size : ℕ) → Honest (shrink parent name size)
unfolding shrink
shrink-Honest parent name size = search (honest_rules, patch_boundary-Honest)

pub upsert_all-Honest :
    (parent name : Str) (blocks : Dict ℕ Bytes) → Honest (upsert_all parent name blocks)
unfolding upsert_all
upsert_all-Honest parent name [] = Honest-pure tt
upsert_all-Honest parent name ((b_no, bytes) ∷ blocks) =
    Honest-bind _ _ (Honest-update _) λ _. upsert_all-Honest parent name blocks

delete_row-Honest : (parent name : Str) → Honest (delete_row parent name)
unfolding delete_row
delete_row-Honest parent name = search honest_rules

delete_block_rows-Honest : (parent name : Str) → Honest (delete_block_rows parent name)
unfolding delete_block_rows
delete_block_rows-Honest parent name = search honest_rules

replace_target-Honest :
    (parent name : Str) (target : Option EntryRow) → Honest (replace_target parent name target)
unfolding replace_target
replace_target-Honest parent name none = Honest-pure tt
replace_target-Honest parent name (some r) = search honest_rules

move_descendants-Honest : (old new : Str) → Honest (move_descendants old new)
unfolding move_descendants
move_descendants-Honest old new = search honest_rules

move_entry-Honest : (p n q m : Str) → Honest (move_entry p n q m)
unfolding move_entry
move_entry-Honest p n q m = search honest_rules

Honest-kind :
    (k : Kind) (m n : Exec (Unit {0}))
    → Honest m
    → Honest n
    → Honest (elim k [ dir ↦ m | file ↦ n ])
Honest-kind dir m n hm hn = hm
Honest-kind file m n hm hn = hn

pub rename_body-Honest : (p n q m : Str) (meta : FileMeta) → Honest (rename_body p n q m meta)
unfolding rename_body
rename_body-Honest p n q m meta = Honest-bind _ _ (Honest-query _) λ target.
    Honest-bind _ _ (replace_target-Honest q m target) λ _.
      Honest-bind _ _
        (Honest-kind meta.kind _ _ (move_descendants-Honest (join p n) (join q m)) (Honest-pure tt))
        λ _.
          Honest-bind _ _ (move_entry-Honest p n q m)
            λ moved. Honest-if _ _ _ (Honest-pure tt) (Honest-raise _)
