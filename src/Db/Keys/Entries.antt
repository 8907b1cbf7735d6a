-- ===== src/Db/Keys/Entries.antt =====
-- The operations of src/db.rs on directory entries keep the primary keys.
use pgfs.Prelude.{
  ℕ, ◌≡◌, refl, Bool, Option, none, some, List, [], ◌∷◌, ◌++◌, arith, Str, codes, str_key,
  Option-cases, inl, inr,
}
use pgfs.Db.Rows.{
  Tables, EntryRow, update_rows, same_entry, same_block, BlockRow, FileMeta, file, dir, Kind,
  find_entry, insert_entry,
}
use pgfs.Db.Exec.{execute, pure}
use pgfs.Db.Names.{
  insert, create, mkdir, unlink, rmdir, rename, rename_meta, rename_body, replace_target,
  move_descendants, move_entry, delete_row, delete_block_rows, delete_counted, with_entries,
  with_blocks, with_count,
}
use pgfs.Db.Names.Moved.{IsKeyed, find_entry-append}
use pgfs.Db.Names.Rename.{delete_entry-IsKeyed, delete_blocks-IsTable}
use pgfs.Db.Keeps.{
  keeps_rules, Keeps, Keeps-if, Keeps-pure, Keeps-raise, Keeps-gets, Keeps-execute, Keeps-query,
  Keeps-update, Keeps-bind, Keeps-transaction, Leaves,
}
use pgfs.Db.Keys.Updates.{update_rows-IsKeyed, update_rows-IsTable}
use pgfs.Db.Keys.{HasKeys, getattr_primary-Keeps}

append-IsKeyed :
    (rows : List EntryRow) (r : EntryRow)
    → IsKeyed rows
    → find_entry r.parent r.name rows ≡ none
    → IsKeyed (rows ++ r ∷ [])
unfolding find_entry
append-IsKeyed [] r k h = (refl, tt)
append-IsKeyed (x ∷ xs) r (k, ks) h = (
  find_entry-append x.parent x.name xs r k (
      ground (
        arith,
        h,
        str_key.same_iff x.parent r.parent,
        str_key.same_iff r.parent x.parent,
        str_key.same_iff x.name r.name,
        str_key.same_iff r.name x.name,
      )),
  append-IsKeyed xs r ks (ground (arith, h)),
)

pub insert_entry-IsKeyed :
    (p n kind : Str) (now : ℕ) (rows : List EntryRow)
    → IsKeyed rows
    → IsKeyed (insert_entry p n kind now rows)
unfolding insert_entry
insert_entry-IsKeyed p n kind now rows k = elim (Option-cases (find_entry p n rows)) [
  | inl e ↦ rw (e, insert_entry) (append-IsKeyed rows _ k e)
  | inr (r, e) ↦ rw (e, insert_entry) k
]

insert-Keeps : (kind p n : Str) → Keeps HasKeys (insert kind p n)
unfolding insert
insert-Keeps kind p n =
    Keeps-bind HasKeys _ _ (Keeps-gets HasKeys _) (λ now.
      Keeps-update HasKeys _ (λ t h. (insert_entry-IsKeyed p n kind now t.entries h.0, h.1)))

pub create-Keeps : (p n : Str) → Keeps HasKeys (create p n)
unfolding create
create-Keeps p n = insert-Keeps (codes "file") p n

pub mkdir-Keeps : (p n : Str) → Keeps HasKeys (mkdir p n)
unfolding mkdir
mkdir-Keeps p n = insert-Keeps (codes "dir") p n

delete_row-Keeps : (p n : Str) → Keeps HasKeys (delete_row p n)
unfolding delete_row
delete_row-Keeps p n = Keeps-update HasKeys _ (λ t h. (delete_entry-IsKeyed p n t.entries h.0, h.1))

delete_block_rows-Keeps : (p n : Str) → Keeps HasKeys (delete_block_rows p n)
unfolding delete_block_rows
delete_block_rows-Keeps p n =
    Keeps-update HasKeys _ (λ t h. (h.0, delete_blocks-IsTable p n t.blocks h.1))

pub unlink-Keeps : (p n : Str) → Keeps HasKeys (unlink p n)
unfolding unlink
unlink-Keeps p n = search (keeps_rules, delete_row-Keeps, delete_block_rows-Keeps)

delete_counted-Keeps : (p n : Str) → Keeps HasKeys (delete_counted p n)
unfolding delete_counted
delete_counted-Keeps p n =
    Keeps-execute HasKeys _ (λ t h. (delete_entry-IsKeyed p n t.entries h.0, h.1))

pub rmdir-Keeps : (p n : Str) → Keeps HasKeys (rmdir p n)
unfolding rmdir
rmdir-Keeps p n = search (keeps_rules, delete_counted-Keeps) depth 8

replace_target-Keeps : (p n : Str) (o : Option EntryRow) → Keeps HasKeys (replace_target p n o)
unfolding replace_target
replace_target-Keeps p n none = Keeps-pure HasKeys tt
replace_target-Keeps p n (some target) =
    search (keeps_rules, delete_row-Keeps, delete_block_rows-Keeps) depth 8

entries_update :
    (t : Tables) (hit : EntryRow → Bool) (set : EntryRow → EntryRow) (o : Option (List EntryRow))
    → update_rows same_entry hit set [] t.entries ≡ o
    → HasKeys t
    → Leaves HasKeys (with_entries t o)
entries_update t hit set none e h = tt
entries_update t hit set (some rows) e h = (update_rows-IsKeyed hit set t.entries rows e h.0, h.1)

counted_update :
    (t : Tables) (moved : ℕ) (hit : EntryRow → Bool) (set : EntryRow → EntryRow)
    (o : Option (List EntryRow))
    → update_rows same_entry hit set [] t.entries ≡ o
    → HasKeys t
    → Leaves HasKeys (with_count t moved o)
counted_update t moved hit set none e h = tt
counted_update t moved hit set (some rows) e h =
    (update_rows-IsKeyed hit set t.entries rows e h.0, h.1)

blocks_update :
    (t : Tables) (hit : BlockRow → Bool) (set : BlockRow → BlockRow)
    → ((r : BlockRow) → (set r).block_no ≡ r.block_no)
    → (o : Option (List BlockRow)) → update_rows same_block hit set [] t.blocks ≡ o
    → HasKeys t
    → Leaves HasKeys (with_blocks t o)
blocks_update t hit set same_no none e h = tt
blocks_update t hit set same_no (some rows) e h =
    (h.0, update_rows-IsTable hit set same_no t.blocks rows e h.1)

move_descendants-Keeps : (old new : Str) → Keeps HasKeys (move_descendants old new)
unfolding move_descendants
move_descendants-Keeps old new =
    Keeps-bind HasKeys _ _ (Keeps-execute HasKeys _ (λ t h. entries_update t _ _ _ refl h))
      (λ _. Keeps-execute HasKeys _ (λ t h. blocks_update t _ _ (λ r. refl) _ refl h))

update_entries-Keeps :
    (moved : Tables → ℕ) (hit : EntryRow → Bool) (set : EntryRow → EntryRow)
    → Keeps HasKeys
        (execute (λ t. with_count t (moved t) (update_rows same_entry hit set [] t.entries)))
update_entries-Keeps moved hit set =
    Keeps-execute HasKeys _ (λ t h. counted_update t (moved t) hit set _ refl h)

update_blocks-Keeps :
    (hit : BlockRow → Bool) (q m : Str)
    → Keeps HasKeys (
        execute (λ t.
          with_blocks t
            (update_rows same_block hit (λ r. record r { parent = q; name = m }) [] t.blocks)))
update_blocks-Keeps hit q m =
    Keeps-execute HasKeys _
      (λ t h. blocks_update t hit (λ r. record r { parent = q; name = m }) (λ r. refl) _ refl h)

move_entry-Keeps : (p n q m : Str) → Keeps HasKeys (move_entry p n q m)
unfolding move_entry
move_entry-Keeps p n q m = search (keeps_rules, update_entries-Keeps, update_blocks-Keeps) depth 9

descend-Keeps :
    (k : Kind) (old new : Str)
    → Keeps HasKeys (elim k [ dir ↦ move_descendants old new | file ↦ pure tt ])
descend-Keeps dir old new = move_descendants-Keeps old new
descend-Keeps file old new = Keeps-pure HasKeys tt

rename_body-Keeps : (p n q m : Str) (f : FileMeta) → Keeps HasKeys (rename_body p n q m f)
unfolding rename_body
rename_body-Keeps p n q m f = Keeps-bind HasKeys _ _ (Keeps-query HasKeys _) λ target.
    Keeps-bind HasKeys _ _ (replace_target-Keeps q m target) λ _.
      Keeps-bind HasKeys _ _ (descend-Keeps f.kind _ _) λ _.
        Keeps-bind HasKeys _ _ (move_entry-Keeps p n q m)
          λ moved. Keeps-if HasKeys _ _ _ (Keeps-pure HasKeys tt) (Keeps-raise HasKeys _)

rename_meta-Keeps : (p n q m : Str) (o : Option FileMeta) → Keeps HasKeys (rename_meta p n q m o)
unfolding rename_meta
rename_meta-Keeps p n q m none = Keeps-raise HasKeys _
rename_meta-Keeps p n q m (some f) = Keeps-transaction HasKeys _ (rename_body-Keeps p n q m f)

pub rename-Keeps : (p n q m : Str) → Keeps HasKeys (rename p n q m)
unfolding rename
rename-Keeps p n q m = search (keeps_rules, getattr_primary-Keeps, rename_meta-Keeps) depth 8
