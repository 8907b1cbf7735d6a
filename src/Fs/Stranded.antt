-- ===== src/Fs/Stranded.antt =====
-- A file that is renamed while a handle on it has buffered data (src/fs.rs `rename`, `flush`).
use pgfs.Prelude.{
  ℕ, ◌<◌, ◌≡◌, ◌∙◌, refl, ap, true, false, not, ◌&&◌, ◌||◌, Option, some, none, arith, Str, codes,
  ◌++◌, ltb, nat_beq, nat_key, str_key, ◌==◌, Bool-cases, inl, inr, [],
}
use pgfs.Dict.{get, put, remove}
use pgfs.Path.{join, starts_with}
use pgfs.Block.{Bytes}
use pgfs.Handle.{HandleBuffer}
use pgfs.Handle.Write.{IsMap}
use pgfs.Metrics.{rename_count}
use pgfs.Inodes.{path_of_ino, rekey_maps}
use pgfs.Db.Rows.{ok, find_entry, has_children}
use pgfs.Db.Exec.{Db, query, execute}
use pgfs.Db.Replica.{getattr_primary, meta_of}
use pgfs.Db.Names.Moved.{IsKeyed}
use pgfs.Db.Names.Rename.{Renames, CanMove, renamed, rename_runs as rows_run, rename_entries}
use pgfs.Db.Content.{write_blocks_batch, is_empty}
use pgfs.Db.Content.Stored.{stored, IsTable}
use pgfs.Db.Content.Whole.{calm, getattr_primary_lem}
use pgfs.Db.Content.Edits.{IsFree}
use pgfs.Db.Content.File.{Holds}
use pgfs.Db.Content.Batch.{Orphans, or_else, write_blocks_batch-Orphans}
use pgfs.Db.Names.RenamedFile.{Renames-Holds}
use pgfs.Db.Names.{rename}
use pgfs.Db.Keys.{HasKeys}
use pgfs.Db.Keys.Entries.{rename-Keeps}
use pgfs.Db.Volume.{regular}
use pgfs.Db.Volume.Shows.{Shows-same}
use pgfs.Fs.State.{PgFs, done, resolve, flush_taken, handle_id}
use pgfs.Fs.Files
use pgfs.Fs.Entries
use pgfs.Fs.Entries.{rename_resolved, checked, moved}
use pgfs.Fs.Failure.{flush_handle_open}
use pgfs.Fs.Client.{IsQuiet, counted, counted-IsQuiet, preamble_lem, at_calm}
use pgfs.Fs.Client.Buffer.{Holds_same}

-- The handle `fh` is open with this buffer, which has data.
pub record HasBuffer (p n : Str) (fh : ℕ) (h : HandleBuffer) (fs : PgFs) : Type 0 where
  pub held : get fh fs.open_handles ≡ some h
  pub numbered : nat_beq fh 0 ≡ false
  pub parent : h.parent ≡ p
  pub name : h.name ≡ n
  pub keys : IsMap h.dirty_blocks
  pub some_size : 0 < h.max_size

module _ (limit : ℕ) (p n : Str) (fh : ℕ) (h : HandleBuffer) (fs : PgFs) (b : HasBuffer p n fh h fs)
    (quiet : IsQuiet limit fs.dump_requested fs.db) (table : IsTable fs.db.tables.blocks)
    (no_entry : find_entry p n fs.db.tables.entries ≡ none) where
  abbrev after_flush : Db → PgFs
  after_flush s' = record fs {
    db = calm s';
    open_handles =
        put fh (record h { dirty_blocks = []; max_size = 0 }) (remove fh fs.open_handles);
  }

  flush_runs :
      (s' : Db) (now_ms ino : ℕ)
      → now_ms < limit
      → write_blocks_batch p n h.dirty_blocks h.max_size (calm fs.db) ≡ (ok tt, calm s')
      → Files.flush now_ms ino fh fs ≡ (after_flush s', done)
  unfolding Files.flush Files.flush_at handle_id flush_taken
  flush_runs s' now_ms ino t runs =
      let writes : (not (is_empty h.dirty_blocks) || ltb 0 h.max_size) ≡ true =
        ground (arith, b.some_size) in
      let batch : write_blocks_batch h.parent h.name h.dirty_blocks h.max_size fs.db
          ≡ (ok tt, calm s') =
        rw (b.parent, b.name)
          (at_calm (write_blocks_batch p n h.dirty_blocks h.max_size) fs.db _ quiet.no_faults
            runs) in
      preamble_lem limit now_ms _ fs quiet t
      ∙ rw (b.numbered, flush_handle_open fh fs h b.held, writes, batch) refl

  -- A flush under a name with no entry is answered as done.
  flush-Orphans :
      (now_ms ino : ℕ)
      → now_ms < limit
      → (s' : Db) × (Files.flush now_ms ino fh fs ≡ (after_flush s', done))
        × Orphans p n h.dirty_blocks h.max_size b.some_size fs.db s'
  flush-Orphans now_ms ino t =
      let (s', runs, o) =
        write_blocks_batch-Orphans p n h.dirty_blocks h.max_size b.some_size fs.db b.keys table
          no_entry in
      (s', flush_runs s' now_ms ino t runs, o)

-- A file that can be renamed to a free name, in tables that keep their primary keys.
pub record CanRename (limit i : ℕ) (p n : Str) (j : ℕ) (q m : Str) (f : Bytes) (fs : PgFs)
    : Type 0 where
  pub quiet : IsQuiet limit fs.dump_requested fs.db
  pub old_parent : path_of_ino i fs.inodes ≡ some p
  pub new_parent : path_of_ino j fs.inodes ≡ some q
  pub differ : (join q m == join p n) ≡ false
  pub outside : starts_with (join q m) (join p n ++ codes "/") ≡ false
  pub source : Holds p n f fs.db
  pub target : IsFree q m fs.db
  pub keyed : IsKeyed fs.db.tables.entries
  pub nothing_below : has_children (join q m) fs.db.tables.entries ≡ false

module _ (limit i : ℕ) (p n : Str) (j : ℕ) (q m : Str) (f : Bytes) (fs : PgFs)
    (c : CanRename limit i p n j q m f fs) where
  abbrev counted_db : Db
  counted_db = (counted rename_count fs).db

  different : (p == q && n == m) ≡ false
  different = elim (Bool-cases (p == q && n == m)) [
    | inr e ↦ e
    | inl e ↦
        let same_paths : join q m ≡ join p n =
          ground (arith, e, str_key.same_iff p q, str_key.same_iff n m) in
        absurd (cc ((str_key.same_iff (join q m) (join p n)).1 same_paths, c.differ))
  ]

  source : Holds p n f counted_db
  source = Holds_same p n f fs.db counted_db refl c.source

  can_move : CanMove p n q m counted_db
  can_move = record {
    different = different;
    keyed = c.keyed;
    table = c.target.table;
    nothing_below = c.nothing_below;
    no_orphans = λ e. c.target.no_blocks;
  }

  resolved_lem :
      (k : ℕ) (t u : Str)
      → path_of_ino k fs.inodes ≡ some t
      → resolve k (some u) fs.inodes ≡ some (t, u)
  unfolding resolve
  resolved_lem k t u e = rw (e, resolve) refl

  source_found : getattr_primary p n counted_db ≡ (ok (some source.attributes), calm counted_db)
  source_found =
      at_calm (getattr_primary p n) counted_db _ c.quiet.no_faults
        (getattr_primary_lem p n source.row source.attributes counted_db source.has)

  target_free : getattr_primary q m (calm counted_db) ≡ (ok none, calm counted_db)
  unfolding getattr_primary query execute meta_of
  target_free = rw (c.target.no_entry) refl

  abbrev after_rename : Db → PgFs
  after_rename s' = record fs { db = calm s'; inodes = rekey_maps (join p n) (join q m) fs.inodes }

  rename_runs :
      (s' : Db) (now_ms : ℕ)
      → now_ms < limit
      → rename p n q m (calm counted_db) ≡ (ok tt, calm s')
      → Entries.rename now_ms i (some n) j (some m) 0 fs ≡ (after_rename s', done)
  unfolding Entries.rename rename_resolved checked moved
  rename_runs s' now_ms t runs =
      preamble_lem limit now_ms _ fs c.quiet t
      ∙ rw
          (
            resolved_lem i p n c.old_parent,
            resolved_lem j q m c.new_parent,
            c.differ,
            c.outside,
            source_found,
            target_free,
            runs,
          )
          refl

  abbrev moved_rows : Db
  moved_rows = renamed p n q m counted_db

  moves : rename p n q m (calm counted_db) ≡ (ok tt, calm moved_rows)
  moves =
      rows_run p n q m source.row source.attributes counted_db source.has can_move source.is_file

  moved_lem : Renames p n q m source.row counted_db moved_rows
  moved_lem = rename_entries p n q m source.row source.attributes counted_db source.has can_move

  moved_keys : HasKeys moved_rows.tables
  moved_keys = rw moves at ((rename-Keeps p n q m).at (calm counted_db) (c.keyed, c.target.table))

  nothing_left :
      (find_entry p n moved_rows.tables.entries ≡ none)
      × ((k : ℕ) → stored p n k moved_rows.tables.blocks ≡ none)
  nothing_left =
      let w = moved_lem in
      let old : (q == p && m == n) ≡ false = ground (
        arith,
        different,
        str_key.same_iff q p,
        str_key.same_iff m n,
        str_key.same_iff p q,
        str_key.same_iff n m,
      ) in
      (
        ground (arith, w.entries p n, old, str_key.same_iff p p, str_key.same_iff n n),
        λ k. ground (arith, w.blocks p n k, old, str_key.same_iff p p, str_key.same_iff n n),
      )

  or_else-none : (o : Option Bytes) → or_else o none ≡ o
  or_else-none none = refl
  or_else-none (some x) = refl

  -- Let no statement fail and no dump be asked for, and let the heartbeat's counter be the one that
  -- the last check saw (so that a check was made, and no beat came since), with the deadline that
  -- this check set after the time of every call. A file is renamed, by the callback, to a name with
  -- neither an entry nor blocks, whose path is another one, not below the old one, and has nothing
  -- under it; and then a handle is flushed that was opened on the file before and has buffered
  -- data, its blocks with distinct i32 numbers. Both calls are answered as done, but the file has
  -- the contents that it had before, and the buffer's blocks lie under the old name, which has no
  -- entry.
  pub flush-rename :
      (now_ms later ino fh : ℕ) (h : HandleBuffer)
      → now_ms < limit
      → later < limit
      → HasBuffer p n fh h fs
      → (fs₁ fs₂ : PgFs) × (Entries.rename now_ms i (some n) j (some m) 0 fs ≡ (fs₁, done))
        × (Files.flush later ino fh fs₁ ≡ (fs₂, done))
        × Holds q m f fs₂.db
        × (find_entry p n fs₂.db.tables.entries ≡ none)
        × ((k : ℕ) → stored p n k fs₂.db.tables.blocks ≡ get k h.dirty_blocks)
  flush-rename now_ms later ino fh h t t' b =
      let fs₁ = after_rename moved_rows in
      let w = moved_lem in
      let gone = nothing_left.0 in
      let quiet : IsQuiet limit fs₁.dump_requested fs₁.db = record {
        no_dump = c.quiet.no_dump;
        lively = (counted-IsQuiet rename_count limit fs c.quiet).lively;
        no_faults = refl;
      } in
      let held : HasBuffer p n fh h fs₁ = record {
        held = b.held;
        numbered = b.numbered;
        parent = b.parent;
        name = b.name;
        keys = b.keys;
        some_size = b.some_size;
      } in
      let (s', flushes, o) =
        flush-Orphans limit p n fh h fs₁ held quiet moved_keys.1 gone later ino t' in
      (
        fs₁,
        after_flush limit p n fh h fs₁ held quiet moved_keys.1 gone s',
        rename_runs moved_rows now_ms t moves,
        flushes,
        Shows-same q m (some (regular f)) moved_rows (calm s') (ap (find_entry q m) o.entries)
            (λ k. o.elsewhere q m k different) o.table
            (Renames-Holds p n q m f counted_db source moved_rows w moved_keys.1),
        ap (find_entry p n) o.entries ∙ gone,
        λ k.
            o.stored_blocks k
            ∙ ap (or_else (get k h.dirty_blocks)) (nothing_left.1 k)
            ∙ or_else-none (get k h.dirty_blocks),
      )
