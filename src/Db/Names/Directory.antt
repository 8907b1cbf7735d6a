-- ===== src/Db/Names/Directory.antt =====
-- `Db::rename` (src/db.rs) of a directory, where no statement fails.
use pgfs.Prelude.{
  ℕ, ◌≡◌, ◌∙◌, sym, ap, refl, true, false, ◌&&◌, none, some, ◌++◌, arith, Str, str_key, ◌==◌,
  Bool-cases, Option-cases, inl, inr,
}
use pgfs.Path.{join}
use pgfs.Db.Rows.{dir, FileMeta, EntryRow, ok, find_entry}
use pgfs.Db.Exec.{Db, query, execute}
use pgfs.Db.Replica.{getattr_primary}
use pgfs.Db.Like.Plain.{is_below}
use pgfs.Db.Names.{rename, rename_meta, rename_body, replace_target, move_entry, move_descendants}
use pgfs.Db.Names.Unlink.{find_entry-delete_entry, stored-delete_blocks}
use pgfs.Db.Names.Rmdir.{is_some, counted_lem}
use pgfs.Db.Names.Moved.{IsKeyed, find_entry-moved_entries}
use pgfs.Db.Names.Moved.Blocks.{stored-moved_blocks}
use pgfs.Db.Names.Moved.Tail.{tail_of, tail_of-some, tail_of-append}
use pgfs.Db.Names.Moved.Below
use pgfs.Db.Names.Moved.Below.{with_parent}
use pgfs.Db.Names.Moved.BelowBlocks
use pgfs.Db.Names.Rename.{
  CanMove, cleared, placed, delete_entry-IsKeyed, delete_blocks-IsTable, replace_target_lem,
  move_entry_lem, cleared_source, cleared_target, cleared_blocks,
}
use pgfs.Db.Names.Tree.{CanMoveTree, RenamesTree}
use pgfs.Db.Content.Stored.{stored, IsTable}
use pgfs.Db.Content.Whole.{calm, Has, bind_ok, getattr_primary_lem, transaction_runs}

module _ (p n q m : Str) (r : EntryRow) (f : FileMeta) (s : Db) (h : Has p n r f s)
    (c : CanMove p n q m s) (w : CanMoveTree p n q m s) where
  abbrev op : Str
  op = join p n

  abbrev np : Str
  np = join q m

  abbrev descended : Db → Db
  descended s₁ = record s₁ {
    tables = record {
      entries = Below.below_moved op np w.plain w.short s₁.tables.entries;
      blocks = BelowBlocks.below_moved op np w.plain w.short s₁.tables.blocks;
    };
  }

  abbrev s₁ : Db
  s₁ = cleared q m s

  abbrev s₂ : Db
  s₂ = descended s₁

  free_entries : (x u : Str) → is_below x ≡ true → find_entry (np ++ x) u s₁.tables.entries ≡ none
  free_entries x u b =
      ground (arith, find_entry-delete_entry q m (np ++ x) u s.tables.entries, w.no_entries x u b)

  free_blocks :
      (x u : Str) (k : ℕ) → is_below x ≡ true → stored (np ++ x) u k s₁.tables.blocks ≡ none
  free_blocks x u k b =
      ground (arith, stored-delete_blocks q m (np ++ x) u k s.tables.blocks, w.no_blocks x u k b)

  keyed₁ : IsKeyed s₁.tables.entries
  keyed₁ = delete_entry-IsKeyed q m s.tables.entries c.keyed

  table₁ : IsTable s₁.tables.blocks
  table₁ = delete_blocks-IsTable q m s.tables.blocks c.table

  descend_runs : move_descendants op np (calm s₁) ≡ (ok tt, calm s₂)
  unfolding move_descendants execute
  descend_runs =
      rw
        (
          Below.update_rows-below_moved op np w.plain w.short s₁.tables.entries keyed₁ free_entries,
          BelowBlocks.update_rows-below_moved op np w.plain w.short s₁.tables.blocks table₁
              free_blocks,
        )
        refl

  -- The old parent is not below the new path, where there is no entry.
  source_beside : tail_of np p ≡ none
  source_beside = elim (Option-cases (tail_of np p)) [
    | inl e ↦ e
    | inr (x, e) ↦
        let (at, b) = tail_of-some np p x e in
        absurd (
          ground (arith, ap (λ z. find_entry z n s.tables.entries) at, h.found, w.no_entries x n b))
  ]

  source₂ : find_entry p n s₂.tables.entries ≡ some r
  source₂ =
      Below.find_entry-beside_moved op np w.plain w.short p n s₁.tables.entries source_beside
      ∙ rw (w.source_outside) (cleared_source p n q m r f s h c)

  target₂ : find_entry q m s₂.tables.entries ≡ none
  target₂ =
      Below.find_entry-beside_moved op np w.plain w.short q m s₁.tables.entries w.above
      ∙ rw (w.target_outside) (cleared_target p n q m r f s h c)

  blocks₂ : (k : ℕ) → stored q m k s₂.tables.blocks ≡ none
  blocks₂ k =
      BelowBlocks.stored-beside_moved op np w.plain w.short q m k s₁.tables.blocks w.above
      ∙ rw (w.target_outside) (cleared_blocks p n q m r f s h c k)

  abbrev moved : Db
  moved = placed p n q m s₂

  body_runs : f.kind ≡ dir → rename_body p n q m f (calm s) ≡ (ok tt, calm moved)
  unfolding rename_body query execute
  body_runs is_dir =
      let count = counted_lem p n s₂.tables.entries ∙ ap is_some source₂ in
      let moves =
        move_entry_lem p n q m s₂
          (Below.below_moved-IsKeyed op np w.plain w.short s₁.tables.entries keyed₁ free_entries)
          (BelowBlocks.below_moved-IsTable op np w.plain w.short s₁.tables.blocks table₁
            free_blocks)
          target₂ blocks₂ in
      bind_ok (replace_target q m (find_entry q m s.tables.entries)) _ (calm s)
        (replace_target_lem p n q m s c)
      ∙ rw (is_dir) (
          bind_ok (move_descendants op np) _ (calm s₁) descend_runs
          ∙ bind_ok (move_entry p n q m) _ (calm s₂) moves
          ∙ rw (count) refl)

  rename_runs : f.kind ≡ dir → rename p n q m (calm s) ≡ (ok tt, calm moved)
  unfolding rename rename_meta
  rename_runs is_dir = rw (c.different) (
      bind_ok (getattr_primary p n) (rename_meta p n q m) (calm s) (getattr_primary_lem p n r f s h)
      ∙ transaction_runs (rename_body p n q m f) s moved (body_runs is_dir))

  -- The target's parent is not below the old path.
  target_apart : (x : Str) → is_below x ≡ true → (q == op ++ x) ≡ false
  target_apart x b =
      ground (arith, str_key.same_iff q (op ++ x), tail_of-append op x b, w.target_outside)

  entries_after :
      (t u : Str)
      → (q == t && m == u) ≡ false
      → find_entry t u s₂.tables.entries ≡ (elim (tail_of np t) [
        | some x ↦ with_parent t (find_entry (op ++ x) u s.tables.entries)
        | none ↦ elim (tail_of op t) [ some _ ↦ none | none ↦ find_entry t u s.tables.entries ]
      ])
  entries_after t u other = elim (Option-cases (tail_of np t)) [
    | inr (x, e) ↦
        let (at, b) = tail_of-some np t x e in
        let kept : find_entry (op ++ x) u s₁.tables.entries
            ≡ find_entry (op ++ x) u s.tables.entries =
          ground
            (arith, find_entry-delete_entry q m (op ++ x) u s.tables.entries, target_apart x b) in
        rw (e) (
          ap (λ z. find_entry z u s₂.tables.entries) at
          ∙ Below.find_entry-below_moved op np w.plain w.short x u s₁.tables.entries b
              (free_entries x u b)
          ∙ ap (with_parent (np ++ x)) kept
          ∙ ap (λ z. with_parent z (find_entry (op ++ x) u s.tables.entries)) (sym at))
    | inl e ↦
        let kept : find_entry t u s₁.tables.entries ≡ find_entry t u s.tables.entries =
          ground (arith, find_entry-delete_entry q m t u s.tables.entries, other) in
        rw (e) (
          Below.find_entry-beside_moved op np w.plain w.short t u s₁.tables.entries e
          ∙ ap (λ o. elim (tail_of op t) [ some _ ↦ none | none ↦ o ]) kept)
  ]

  blocks_after :
      (t u : Str) (k : ℕ)
      → (q == t && m == u) ≡ false
      → stored t u k s₂.tables.blocks ≡ (elim (tail_of np t) [
        | some x ↦ stored (op ++ x) u k s.tables.blocks
        | none ↦ elim (tail_of op t) [ some _ ↦ none | none ↦ stored t u k s.tables.blocks ]
      ])
  blocks_after t u k other = elim (Option-cases (tail_of np t)) [
    | inr (x, e) ↦
        let (at, b) = tail_of-some np t x e in
        let kept : stored (op ++ x) u k s₁.tables.blocks ≡ stored (op ++ x) u k s.tables.blocks =
          ground
            (arith, stored-delete_blocks q m (op ++ x) u k s.tables.blocks, target_apart x b) in
        rw (e) (
          ap (λ z. stored z u k s₂.tables.blocks) at
          ∙ BelowBlocks.stored-below_moved op np w.plain w.short x u k s₁.tables.blocks b
              (free_blocks x u k b)
          ∙ kept)
    | inl e ↦
        let kept : stored t u k s₁.tables.blocks ≡ stored t u k s.tables.blocks =
          ground (arith, stored-delete_blocks q m t u k s.tables.blocks, other) in
        rw (e) (
          BelowBlocks.stored-beside_moved op np w.plain w.short t u k s₁.tables.blocks e
          ∙ ap (λ o. elim (tail_of op t) [ some _ ↦ none | none ↦ o ]) kept)
  ]

  source_blocks : (k : ℕ) → stored p n k s₂.tables.blocks ≡ stored p n k s.tables.blocks
  source_blocks k =
      BelowBlocks.stored-beside_moved op np w.plain w.short p n k s₁.tables.blocks source_beside
      ∙ rw (w.source_outside) (
          ground (
            arith,
            stored-delete_blocks q m p n k s.tables.blocks,
            c.different,
            str_key.same_iff p q,
            str_key.same_iff n m,
            str_key.same_iff q p,
            str_key.same_iff m n,
          ))

  rename_tree : RenamesTree p n q m r s moved
  rename_tree = record {
    entries = λ t u.
        find_entry-moved_entries p n q m s.now t u s₂.tables.entries target₂ c.different
        ∙ (elim (Bool-cases (q == t && m == u)) [
          | inl e ↦ rw (e, source₂) refl
          | inr e ↦ rw (e, entries_after t u e) refl
        ]);
    blocks = λ t u k.
        stored-moved_blocks p n q m t u k s₂.tables.blocks (blocks₂ k) c.different
        ∙ (elim (Bool-cases (q == t && m == u)) [
          | inl e ↦ rw (e, source_blocks k) refl
          | inr e ↦ rw (e, blocks_after t u k e) refl
        ]);
  }

-- Where no statement fails, and each table keeps its primary key, rename of a directory to a
-- different name succeeds and moves the whole tree, if the old path is plain (ASCII with no `%`,
-- `_` or backslash, and of less than 2^32 bytes), the directory is not moved below itself, and
-- nothing lies at or below the new path but an entry that it replaces. Afterwards the new name has
-- the directory's entry, with the server's time; every path at or below the old one has its entries
-- and blocks at the same place below the new one; the old name and the old path have nothing, and
-- all else is as before.
pub rename-RenamesTree :
    (p n q m : Str) (r : EntryRow) (f : FileMeta) (s : Db)
    → Has p n r f s
    → CanMove p n q m s
    → CanMoveTree p n q m s
    → f.kind ≡ dir
    → (s' : Db) × (rename p n q m (calm s) ≡ (ok tt, calm s')) × RenamesTree p n q m r s s'
rename-RenamesTree p n q m r f s h c w is_dir = (
  moved p n q m r f s h c w,
  rename_runs p n q m r f s h c w is_dir,
  rename_tree p n q m r f s h c w,
)
