-- ===== src/Db/Names/Rename.antt =====
-- `Db::rename` (src/db.rs) of a file, where no statement fails.
use pgfs.Prelude.{
  ℕ, ◌≡◌, ◌∙◌, ap, refl, false, ◌&&◌, none, some, List, [], ◌∷◌, arith, Str, codes, str_key, ◌==◌,
  if◌then◌else◌, filterb, length, Bool-cases, Option-cases, inl, inr,
}
use pgfs.Path.{join}
use pgfs.Db.Rows.{
  file, FileMeta, EntryRow, BlockRow, ok, is_entry, is_block_of, find_entry, delete_entry,
  delete_blocks, has_children,
}
use pgfs.Db.Exec.{Db, query, update, execute}
use pgfs.Db.Replica.{getattr_primary}
use pgfs.Db.Names.{
  rename, rename_meta, rename_body, replace_target, move_entry, delete_row, delete_block_rows,
}
use pgfs.Db.Names.Unlink.{find_entry-delete_entry, stored-delete_blocks}
use pgfs.Db.Names.Rmdir.{is_some, counted_lem}
use pgfs.Db.Names.Moved.{
  IsKeyed, moved_entries, update_rows-moved_entries, find_entry-moved_entries,
}
use pgfs.Db.Names.Moved.Blocks.{moved_blocks, update_rows-moved_blocks, stored-moved_blocks}
use pgfs.Db.Content.Stored.{stored, IsTable}
use pgfs.Db.Content.Whole.{calm, Has, bind_ok, getattr_primary_lem, transaction_runs}

pub delete_entry-IsKeyed :
    (p n : Str) (rows : List EntryRow) → IsKeyed rows → IsKeyed (delete_entry p n rows)
unfolding delete_entry
delete_entry-IsKeyed p n [] k = tt
delete_entry-IsKeyed p n (r ∷ rs) (k, ks) = elim (Bool-cases (is_entry p n r)) [
  | inl e ↦ rw (e) (delete_entry-IsKeyed p n rs ks)
  | inr e ↦ rw (e) (
    ground (arith, find_entry-delete_entry p n r.parent r.name rs),
    delete_entry-IsKeyed p n rs ks,
  )
]

pub delete_blocks-IsTable :
    (p n : Str) (rows : List BlockRow) → IsTable rows → IsTable (delete_blocks p n rows)
unfolding delete_blocks
delete_blocks-IsTable p n [] t = tt
delete_blocks-IsTable p n (r ∷ rs) (k, small, t) = elim (Bool-cases (is_block_of p n r)) [
  | inl e ↦ rw (e) (delete_blocks-IsTable p n rs t)
  | inr e ↦ rw (e) (
    ground (arith, stored-delete_blocks p n r.parent r.name r.block_no rs),
    small,
    delete_blocks-IsTable p n rs t,
  )
]

delete_entry-find_entry :
    (p n : Str) (rows : List EntryRow) → find_entry p n rows ≡ none → delete_entry p n rows ≡ rows
unfolding delete_entry find_entry
delete_entry-find_entry p n [] h = refl
delete_entry-find_entry p n (r ∷ rs) h = ground (arith, delete_entry-find_entry p n rs)

delete_blocks-stored :
    (p n : Str) (rows : List BlockRow)
    → ((k : ℕ) → stored p n k rows ≡ none)
    → delete_blocks p n rows ≡ rows
unfolding delete_blocks
delete_blocks-stored p n [] h = refl
delete_blocks-stored p n (r ∷ rs) h =
    ground (arith, h r.block_no, delete_blocks-stored p n rs (λ k. ground (arith, h k)))

-- The two names differ; the tables keep their primary keys; nothing has the new path as its parent; and
-- if the new name has no entry, it has no blocks either.
pub record CanMove (p n q m : Str) (s : Db) : Type 0 where
  pub different : (p == q && n == m) ≡ false
  pub keyed : IsKeyed s.tables.entries
  pub table : IsTable s.tables.blocks
  pub nothing_below : has_children (join q m) s.tables.entries ≡ false
  pub no_orphans :
      find_entry q m s.tables.entries ≡ none → (k : ℕ) → stored q m k s.tables.blocks ≡ none

abbrev pub cleared : Str → Str → Db → Db
cleared q m s = record s {
  tables = record {
    entries = delete_entry q m s.tables.entries;
    blocks = delete_blocks q m s.tables.blocks;
  };
}

abbrev pub placed : Str → Str → Str → Str → Db → Db
placed p n q m s = record s {
  tables = record {
    entries = moved_entries p n q m s.now s.tables.entries;
    blocks = moved_blocks p n q m s.tables.blocks;
  };
}

-- The target is gone, whether it was there or not.
pub replace_target_lem :
    (p n q m : Str) (s : Db)
    → CanMove p n q m s
    → replace_target q m (find_entry q m s.tables.entries) (calm s) ≡ (ok tt, calm (cleared q m s))
unfolding replace_target query execute update delete_row delete_block_rows
replace_target_lem p n q m s c = elim (Option-cases (find_entry q m s.tables.entries)) [
  | inl e ↦
      rw
        (
          e,
          delete_entry-find_entry q m s.tables.entries e,
          delete_blocks-stored q m s.tables.blocks (c.no_orphans e),
        )
        refl
  | inr (t, e) ↦ elim (Bool-cases (t.kind == codes "dir")) [
    | inl d ↦ rw (e, d, c.nothing_below) refl
    | inr f ↦ rw (e, f) refl
  ]
]

pub move_entry_lem :
    (p n q m : Str) (s : Db)
    → IsKeyed s.tables.entries
    → IsTable s.tables.blocks
    → find_entry q m s.tables.entries ≡ none
    → ((k : ℕ) → stored q m k s.tables.blocks ≡ none)
    → move_entry p n q m (calm s)
      ≡ (ok (length (filterb (is_entry p n) s.tables.entries)), calm (placed p n q m s))
unfolding move_entry execute
move_entry_lem p n q m s k t fresh free =
    rw
      (
        update_rows-moved_entries p n q m s.now s.tables.entries k fresh,
        update_rows-moved_blocks p n q m s.tables.blocks t free,
      )
      refl

abbrev pub renamed : Str → Str → Str → Str → Db → Db
renamed p n q m s = placed p n q m (cleared q m s)

-- The entry `r` and the blocks of the old name are those of the new name, with the time of the server;
-- the old name has nothing, and all other names have what they had.
pub record Renames (p n q m : Str) (r : EntryRow) (s s' : Db) : Type 0 where
  pub entries :
      (t u : Str)
      → find_entry t u s'.tables.entries ≡ (
          if q == t && m == u
          then some (record r { parent = q; name = m; mtime = s.now })
          else if p == t && n == u
          then none
          else find_entry t u s.tables.entries)
  pub blocks :
      (t u : Str) (k : ℕ)
      → stored t u k s'.tables.blocks ≡ (
          if q == t && m == u
          then stored p n k s.tables.blocks
          else if p == t && n == u
          then none
          else stored t u k s.tables.blocks)

module _ (p n q m : Str) (r : EntryRow) (f : FileMeta) (s : Db) (h : Has p n r f s)
    (c : CanMove p n q m s) where
  pub cleared_source : find_entry p n (cleared q m s).tables.entries ≡ some r
  cleared_source = ground (
    arith,
    h.found,
    c.different,
    find_entry-delete_entry q m p n s.tables.entries,
    str_key.same_iff p q,
    str_key.same_iff n m,
    str_key.same_iff q p,
    str_key.same_iff m n,
  )

  pub cleared_target : find_entry q m (cleared q m s).tables.entries ≡ none
  cleared_target = ground (
    arith,
    find_entry-delete_entry q m q m s.tables.entries,
    str_key.same_iff q q,
    str_key.same_iff m m,
  )

  pub cleared_blocks : (k : ℕ) → stored q m k (cleared q m s).tables.blocks ≡ none
  cleared_blocks k = ground (
    arith,
    stored-delete_blocks q m q m k s.tables.blocks,
    str_key.same_iff q q,
    str_key.same_iff m m,
  )

  body_runs : f.kind ≡ file → rename_body p n q m f (calm s) ≡ (ok tt, calm (renamed p n q m s))
  unfolding rename_body query execute
  body_runs is_file =
      let count = counted_lem p n (cleared q m s).tables.entries ∙ ap is_some cleared_source in
      let moves =
        move_entry_lem p n q m (cleared q m s) (delete_entry-IsKeyed q m s.tables.entries c.keyed)
          (delete_blocks-IsTable q m s.tables.blocks c.table) cleared_target cleared_blocks in
      bind_ok (replace_target q m (find_entry q m s.tables.entries)) _ (calm s)
        (replace_target_lem p n q m s c)
      ∙ rw (is_file) (bind_ok (move_entry p n q m) _ (calm (cleared q m s)) moves ∙ rw (count) refl)

  pub rename_runs : f.kind ≡ file → rename p n q m (calm s) ≡ (ok tt, calm (renamed p n q m s))
  unfolding rename rename_meta
  rename_runs is_file = rw (c.different) (
      bind_ok (getattr_primary p n) (rename_meta p n q m) (calm s) (getattr_primary_lem p n r f s h)
      ∙ transaction_runs (rename_body p n q m f) s (renamed p n q m s) (body_runs is_file))

  pub rename_entries : Renames p n q m r s (renamed p n q m s)
  rename_entries = record {
    entries = λ t u.
        find_entry-moved_entries p n q m s.now t u (cleared q m s).tables.entries cleared_target
          c.different
        ∙ ground (arith, cleared_source, find_entry-delete_entry q m t u s.tables.entries);
    blocks = λ t u k.
        stored-moved_blocks p n q m t u k (cleared q m s).tables.blocks (cleared_blocks k)
          c.different
        ∙ ground (
          arith,
          stored-delete_blocks q m t u k s.tables.blocks,
          stored-delete_blocks q m p n k s.tables.blocks,
          c.different,
          str_key.same_iff p q,
          str_key.same_iff n m,
          str_key.same_iff q p,
          str_key.same_iff m n,
        );
  }

-- Where no statement fails, and each table keeps its primary key, `rename` of a file to a different
-- name succeeds, if no entry has the new path as its parent and the new name has no blocks without
-- an entry. Afterwards the new name has the file's entry, with the server's time, and its blocks;
-- the old name has nothing, and all other names have what they had.
pub rename-Renames :
    (p n q m : Str) (r : EntryRow) (f : FileMeta) (s : Db)
    → Has p n r f s
    → CanMove p n q m s
    → f.kind ≡ file
    → (s' : Db) × (rename p n q m (calm s) ≡ (ok tt, calm s')) × Renames p n q m r s s'
rename-Renames p n q m r f s h c is_file =
    (renamed p n q m s, rename_runs p n q m r f s h c is_file, rename_entries p n q m r f s h c)
