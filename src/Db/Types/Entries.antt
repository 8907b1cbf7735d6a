-- ===== src/Db/Types/Entries.antt =====
-- The operations of src/db.rs on directory entries keep the types of the columns.
use pgfs.Prelude.{
  ℕ, ◌≡◌, ◌⊎◌, refl, Bool, Option, none, some, List, [], arith, Str, codes, Option-cases, inl, inr,
  length, filterb, Each, Each-append, Each-filterb,
}
use pgfs.Db.Rows.{
  Tables, EntryRow, BlockRow, update_rows, same_entry, same_block, FileMeta, file, dir, Kind,
  find_entry, insert_entry, delete_entry, delete_blocks, is_entry, is_block_of,
}
use pgfs.Db.Exec.{execute, pure}
use pgfs.Db.Names.{
  insert, create, mkdir, unlink, rmdir, rename, rename_meta, rename_body, replace_target,
  move_descendants, move_entry, delete_row, delete_block_rows, delete_counted, with_entries,
  with_blocks, with_count,
}
use pgfs.Db.Keeps.{
  keeps_rules, Keeps, Keeps-if, Keeps-pure, Keeps-raise, Keeps-gets, Keeps-execute, Keeps-query,
  Keeps-update, Keeps-bind, Keeps-transaction, Leaves,
}
use pgfs.Db.Keys.Updates.{update_rows-Each, entry_symmetric}
use pgfs.Db.Types.{IsTyped, AreTyped, getattr_primary-Keeps}

insert_entry-Each :
    (p n kind : Str) (now : ℕ) (rows : List EntryRow)
    → (kind ≡ codes "file") ⊎ (kind ≡ codes "dir")
    → Each IsTyped rows
    → Each IsTyped (insert_entry p n kind now rows)
unfolding insert_entry
insert_entry-Each p n kind now rows known h = elim (Option-cases (find_entry p n rows)) [
  | inl e ↦ rw (e, insert_entry) (Each-append IsTyped rows _ h (known, ground arith))
  | inr (r, e) ↦ rw (e, insert_entry) h
]

insert-Keeps :
    (kind p n : Str)
    → (kind ≡ codes "file") ⊎ (kind ≡ codes "dir")
    → Keeps AreTyped (insert kind p n)
unfolding insert
insert-Keeps kind p n known = Keeps-bind AreTyped _ _ (Keeps-gets AreTyped _) (λ now.
    Keeps-update AreTyped (λ t. record t { entries = insert_entry p n kind now t.entries })
      (λ t h. insert_entry-Each p n kind now t.entries known h))

pub create-Keeps : (p n : Str) → Keeps AreTyped (create p n)
unfolding create
create-Keeps p n = insert-Keeps (codes "file") p n (inl refl)

pub mkdir-Keeps : (p n : Str) → Keeps AreTyped (mkdir p n)
unfolding mkdir
mkdir-Keeps p n = insert-Keeps (codes "dir") p n (inr refl)

delete_entry-Each :
    (p n : Str) (rows : List EntryRow) → Each IsTyped rows → Each IsTyped (delete_entry p n rows)
unfolding delete_entry
delete_entry-Each p n rows h = Each-filterb IsTyped _ rows h

delete_row-Keeps : (p n : Str) → Keeps AreTyped (delete_row p n)
unfolding delete_row
delete_row-Keeps p n =
    Keeps-update AreTyped (λ t. record t { entries = delete_entry p n t.entries })
      (λ t h. delete_entry-Each p n t.entries h)

delete_block_rows-Keeps : (p n : Str) → Keeps AreTyped (delete_block_rows p n)
unfolding delete_block_rows
delete_block_rows-Keeps p n =
    Keeps-update AreTyped (λ t. record t { blocks = delete_blocks p n t.blocks }) (λ t h. h)

pub unlink-Keeps : (p n : Str) → Keeps AreTyped (unlink p n)
unfolding unlink
unlink-Keeps p n = search (keeps_rules, delete_row-Keeps, delete_block_rows-Keeps)

delete_counted-Keeps : (p n : Str) → Keeps AreTyped (delete_counted p n)
unfolding delete_counted
delete_counted-Keeps p n = Keeps-execute AreTyped _ (λ t h. delete_entry-Each p n t.entries h)

pub rmdir-Keeps : (p n : Str) → Keeps AreTyped (rmdir p n)
unfolding rmdir
rmdir-Keeps p n = search (keeps_rules, delete_counted-Keeps) depth 8

replace_target-Keeps : (p n : Str) (o : Option EntryRow) → Keeps AreTyped (replace_target p n o)
unfolding replace_target
replace_target-Keeps p n none = Keeps-pure AreTyped tt
replace_target-Keeps p n (some target) =
    search (keeps_rules, delete_row-Keeps, delete_block_rows-Keeps) depth 8

-- An assignment that leaves the columns `kind` and `size`.
abbrev LeavesTypes : (EntryRow → EntryRow) → Type 0
LeavesTypes set = (r : EntryRow) → IsTyped r → IsTyped (set r)

module _ (hit : EntryRow → Bool) (set : EntryRow → EntryRow) (same_types : LeavesTypes set) where
  update_rows-Typed :
      (rows out : List EntryRow)
      → update_rows same_entry hit set [] rows ≡ some out
      → Each IsTyped rows
      → Each IsTyped out
  update_rows-Typed rows out e h =
      update_rows-Each same_entry entry_symmetric hit set IsTyped same_types [] rows out e h

  entries_update :
      (t : Tables) (o : Option (List EntryRow))
      → update_rows same_entry hit set [] t.entries ≡ o
      → AreTyped t
      → Leaves AreTyped (with_entries t o)
  entries_update t none e h = tt
  entries_update t (some rows) e h = update_rows-Typed t.entries rows e h

  counted_update :
      (t : Tables) (moved : ℕ) (o : Option (List EntryRow))
      → update_rows same_entry hit set [] t.entries ≡ o
      → AreTyped t
      → Leaves AreTyped (with_count t moved o)
  counted_update t moved none e h = tt
  counted_update t moved (some rows) e h = update_rows-Typed t.entries rows e h

blocks_update :
    (t : Tables) (o : Option (List BlockRow)) → AreTyped t → Leaves AreTyped (with_blocks t o)
blocks_update t none h = tt
blocks_update t (some rows) h = h

move_descendants-Keeps : (old new : Str) → Keeps AreTyped (move_descendants old new)
unfolding move_descendants
move_descendants-Keeps old new =
    Keeps-bind AreTyped _ _
      (Keeps-execute AreTyped _ (λ t h. entries_update _ _ (λ r k. k) t _ refl h))
      (λ _. Keeps-execute AreTyped _ (λ t h. blocks_update t _ h))

update_entries-Keeps :
    (moved : Tables → ℕ) (hit : EntryRow → Bool) (set : EntryRow → EntryRow)
    → LeavesTypes set
    → Keeps AreTyped
        (execute (λ t. with_count t (moved t) (update_rows same_entry hit set [] t.entries)))
update_entries-Keeps moved hit set k =
    Keeps-execute AreTyped _ (λ t h. counted_update hit set k t (moved t) _ refl h)

update_blocks-Keeps :
    (rows : Tables → Option (List BlockRow))
    → Keeps AreTyped (execute (λ t. with_blocks t (rows t)))
update_blocks-Keeps rows = Keeps-execute AreTyped _ (λ t h. blocks_update t (rows t) h)

move_entry-Keeps : (p n q m : Str) → Keeps AreTyped (move_entry p n q m)
unfolding move_entry
move_entry-Keeps p n q m = Keeps-bind AreTyped _ _ (Keeps-gets AreTyped (λ s. s.now)) λ now.
    Keeps-bind AreTyped _ _
      (update_entries-Keeps (λ t. length (filterb (is_entry p n) t.entries)) (is_entry p n)
        (λ r. record r { parent = q; name = m; mtime = now }) (λ r k. k))
      λ moved.
        Keeps-bind AreTyped _ _
          (update_blocks-Keeps (λ t.
            update_rows same_block (is_block_of p n) (λ r. record r { parent = q; name = m }) []
              t.blocks))
          (λ _. Keeps-pure AreTyped moved)

descend-Keeps :
    (k : Kind) (old new : Str)
    → Keeps AreTyped (elim k [ dir ↦ move_descendants old new | file ↦ pure tt ])
descend-Keeps dir old new = move_descendants-Keeps old new
descend-Keeps file old new = Keeps-pure AreTyped tt

rename_body-Keeps : (p n q m : Str) (f : FileMeta) → Keeps AreTyped (rename_body p n q m f)
unfolding rename_body
rename_body-Keeps p n q m f = Keeps-bind AreTyped _ _ (Keeps-query AreTyped _) λ target.
    Keeps-bind AreTyped _ _ (replace_target-Keeps q m target) λ _.
      Keeps-bind AreTyped _ _ (descend-Keeps f.kind _ _) λ _.
        Keeps-bind AreTyped _ _ (move_entry-Keeps p n q m)
          λ moved. Keeps-if AreTyped _ _ _ (Keeps-pure AreTyped tt) (Keeps-raise AreTyped _)

rename_meta-Keeps : (p n q m : Str) (o : Option FileMeta) → Keeps AreTyped (rename_meta p n q m o)
unfolding rename_meta
rename_meta-Keeps p n q m none = Keeps-raise AreTyped _
rename_meta-Keeps p n q m (some f) = Keeps-transaction AreTyped _ (rename_body-Keeps p n q m f)

pub rename-Keeps : (p n q m : Str) → Keeps AreTyped (rename p n q m)
unfolding rename
rename-Keeps p n q m = search (keeps_rules, getattr_primary-Keeps, rename_meta-Keeps) depth 8
