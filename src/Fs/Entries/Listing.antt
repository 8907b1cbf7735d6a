-- ===== src/Fs/Entries/Listing.antt =====
-- A directory that is read in pages (src/fs.rs `readdir`).
use mathlib.Core.Path.{subst}
use pgfs.Prelude.{
  ℕ, ◌+◌, ◌≤◌, ◌≡◌, ◌∙◌, sym, ap, refl, some, inl, inr, List, [], ◌∷◌, ◌++◌, arith, Str, codes,
  str_key, str_beq_iff, length, Option-cases,
}
use pgfs.Dict.{get, get-put}
use pgfs.Path.{join}
use pgfs.Inodes.{Inodes, ino_for}
use pgfs.Inodes.Consistent.{ino_for_known, ino_for_new}
use pgfs.Db.Rows.{dir, FileMeta}
use pgfs.Fs.State.{
  DirEntry, PgFs, Reply, entry, attributes, bytes, written, opened, created, directory, done, error,
  aborted,
}
use pgfs.Fs.Entries.{numbered, child_entries, listing}
use pgfs.Fs.Entries.Pages.{Item, Full, AllHaveRoom, last_offset, page, pages, pages_lem}

-- Numbers that paths have are kept.
abbrev Keeps : Inodes → Inodes → Type 0
Keeps t t' = (p : Str) (i : ℕ) → get p t.ino_by_path ≡ some i → get p t'.ino_by_path ≡ some i

ino_for-Keeps : (q : Str) (t : Inodes) → Keeps t (ino_for q t).1
ino_for-Keeps q t p i h = elim (Option-cases (get q t.ino_by_path)) [
  | inr (j, e) ↦ rw (ino_for_known q t j e) h
  | inl e ↦
      rw (ino_for_new q t e) (ground (arith, get-put q p t.next_ino t.ino_by_path, str_beq_iff q p))
]

ino_for_entered : (q : Str) (t : Inodes) → get q (ino_for q t).1.ino_by_path ≡ some (ino_for q t).0
ino_for_entered q t = elim (Option-cases (get q t.ino_by_path)) [
  | inr (j, e) ↦ rw (ino_for_known q t j e) e
  | inl e ↦
      rw (ino_for_new q t e) (ground (arith, get-put q q t.next_ino t.ino_by_path, str_beq_iff q q))
]

child_entries-Keeps :
    (path : Str) (ms : List FileMeta) (fs : PgFs)
    → Keeps fs.inodes (child_entries path ms fs).1.inodes
unfolding child_entries
child_entries-Keeps path [] fs p i h = h
child_entries-Keeps path (m ∷ ms) fs p i h =
    let t : Inodes = (ino_for (join path m.name) fs.inodes).1 in
    child_entries-Keeps path ms (record fs { inodes = t }) p i
      (ino_for-Keeps (join path m.name) fs.inodes p i h)

-- A further listing finds the numbers that an earlier one gave out.
child_entries_again :
    (path : Str) (ms : List FileMeta) (fs fs' : PgFs)
    → Keeps (child_entries path ms fs).1.inodes fs'.inodes
    → child_entries path ms fs' ≡ ((child_entries path ms fs).0, fs')
unfolding child_entries
child_entries_again path [] fs fs' k = refl
child_entries_again path (m ∷ ms) fs fs' k =
    let q : Str = join path m.name in
    let fs₁ : PgFs = record fs { inodes = (ino_for q fs.inodes).1 } in
    let known =
      k q (ino_for q fs.inodes).0
        (child_entries-Keeps path ms fs₁ q (ino_for q fs.inodes).0 (ino_for_entered q fs.inodes)) in
    rw
      (
        ino_for_known q fs'.inodes (ino_for q fs.inodes).0 known,
        child_entries_again path ms fs₁ fs' k,
      )
      refl

abbrev entries_of : Reply → List DirEntry
entries_of (entry ttl attr) = []
entries_of (attributes ttl attr) = []
entries_of (bytes bs) = []
entries_of (written n) = []
entries_of (opened fh) = []
entries_of (created ttl attr fh) = []
entries_of (directory es) = es
entries_of done = []
entries_of (error e) = []
entries_of aborted = []

-- A reader of the directory, which asks for page after page, each from the offset of the last entry
-- that it has, for buffers that fill up in any way.
abbrev pub read_dir : List Full → ℕ → ℕ → Str → ℕ → List FileMeta → PgFs → List DirEntry × PgFs
read_dir [] offset ino path parent_ino metas fs = ([], fs)
read_dir (full ∷ fulls) offset ino path parent_ino metas fs =
    let (fs', r) = listing full offset ino path parent_ino metas fs in
    let (es, fs'') =
      read_dir fulls (last_offset offset (entries_of r)) ino path parent_ino metas fs' in
    (entries_of r ++ es, fs'')

-- The entries are those of the children, numbered on from `i`, each with the inode number of its path.
abbrev pub Children : Str → ℕ → List FileMeta → List DirEntry → Inodes → Type 0
Children path i [] [] t = Unit {0}
Children path i [] (e ∷ es) t = ⊥
Children path i (m ∷ ms) [] t = ⊥
Children path i (m ∷ ms) (e ∷ es) t =
    (e.name ≡ m.name)
    × (e.kind ≡ m.kind)
    × (e.offset ≡ i + 1)
    × (get (join path m.name) t.ino_by_path ≡ some e.ino)
    × Children path (i + 1) ms es t

numbered-Children :
    (path : Str) (i : ℕ) (ms : List FileMeta) (fs : PgFs)
    → Children path i ms
        (numbered i (child_entries path ms fs).0)
        (child_entries path ms fs).1.inodes
unfolding numbered child_entries
numbered-Children path i [] fs = tt
numbered-Children path i (m ∷ ms) fs =
    let q : Str = join path m.name in
    let fs₁ : PgFs = record fs { inodes = (ino_for q fs.inodes).1 } in
    (
      refl,
      refl,
      refl,
      child_entries-Keeps path ms fs₁ q (ino_for q fs.inodes).0 (ino_for_entered q fs.inodes),
      numbered-Children path (i + 1) ms fs₁,
    )

length-child_entries :
    (path : Str) (ms : List FileMeta) (fs : PgFs) → length (child_entries path ms fs).0 ≡ length ms
unfolding child_entries
length-child_entries path [] fs = refl
length-child_entries path (m ∷ ms) fs = omega (
  arith,
  length-child_entries path ms (record fs { inodes = (ino_for (join path m.name) fs.inodes).1 }),
)

module _ (ino : ℕ) (path : Str) (parent_ino : ℕ) (metas : List FileMeta) where
  abbrev items : List Item → List Item
  items below = (ino, dir, codes ".") ∷ (parent_ino, dir, codes "..") ∷ below

  read_dir_again :
      (fulls : List Full) (offset : ℕ) (below : List Item) (fs : PgFs)
      → child_entries path metas fs ≡ (below, fs)
      → read_dir fulls offset ino path parent_ino metas fs ≡ (pages fulls offset (items below), fs)
  unfolding listing
  read_dir_again [] offset below fs h = refl
  read_dir_again (full ∷ fulls) offset below fs h =
      let p : List DirEntry = page full offset (items below) in
      rw (h) (ap (λ r. (p ++ r.0, r.1)) (read_dir_again fulls (last_offset offset p) below fs h))

  read_dir_first :
      (full : Full) (fulls : List Full) (fs : PgFs)
      → read_dir (full ∷ fulls) 0 ino path parent_ino metas fs ≡ (
        pages (full ∷ fulls) 0 (items (child_entries path metas fs).0),
        (child_entries path metas fs).1,
      )
  unfolding listing
  read_dir_first full fulls fs =
      let b : List Item × PgFs = child_entries path metas fs in
      let p : List DirEntry = page full 0 (items b.0) in
      ap (λ r. (p ++ r.0, r.1))
        (read_dir_again fulls (last_offset 0 p) b.0 b.1
          (child_entries_again path metas fs b.1 (λ q i h. h)))

  -- Whatever fills the buffers, if each has room for one entry, and there are as many pages as entries,
  -- a directory whose children stay the same is read completely: `.` and `..`, and then the children,
  -- each once and in order, with its name, its kind and the inode number that its path has.
  pub read_dir-Children :
      (fulls : List Full) (fs : PgFs)
      → AllHaveRoom fulls
      → length metas + 2 ≤ length fulls
      → (es : List DirEntry) × ((read_dir fulls 0 ino path parent_ino metas fs).0
          ≡ record { ino = ino; offset = 1; kind = dir; name = codes "." }
            ∷ record { ino = parent_ino; offset = 2; kind = dir; name = codes ".." }
            ∷ es)
        × Children path 2 metas es (read_dir fulls 0 ino path parent_ino metas fs).1.inodes
  unfolding numbered
  read_dir-Children [] fs rooms enough = absurd (omega arith)
  read_dir-Children (full ∷ fulls) fs rooms enough =
      let b : List Item × PgFs = child_entries path metas fs in
      let all =
        pages_lem (full ∷ fulls) (items b.0) rooms
          (omega (arith, length-child_entries path metas fs)) in
      (
        numbered 2 b.0,
        ap (λ r. r.0) (read_dir_first full fulls fs) ∙ all,
        subst (λ r. Children path 2 metas (numbered 2 b.0) r.1.inodes)
            (sym (read_dir_first full fulls fs)) (numbered-Children path 2 metas fs),
      )
