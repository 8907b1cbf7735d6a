-- ===== src/Db/Volume/RenamedTrees.antt =====
-- `rename` (src/db.rs) of a file or a directory on a database that holds a map, where no statement
-- fails.
use pgfs.Prelude.{
  ℕ, ◌/◌, ◌≡◌, ◌∙◌, sym, ap, refl, true, false, ◌&&◌, Option, none, some, ◌++◌, arith, Str, str_key,
  ◌==◌, if◌then◌else◌, Bool-cases, Option-cases, inl, inr,
}
use pgfs.Dict.{get-put, get-remove, put, remove}
use pgfs.Path.{join}
use pgfs.Block.{block_size}
use pgfs.Db.Rows.{EntryRow, ok, find_entry, row_to_meta}
use pgfs.Db.Exec.{Db}
use pgfs.Db.Like.Plain.{is_below}
use pgfs.Db.Names.{rename}
use pgfs.Db.Names.Moved.Tail.{tail_of, tail_of-some, tail_of-append}
use pgfs.Db.Names.Moved.Below.{with_parent}
use pgfs.Db.Names.Tree.{CanMoveTree, RenamesTree}
use pgfs.Db.Names.Directory.{rename-RenamesTree}
use pgfs.Db.Names.RenamedFile.{row_to_meta-moved}
use pgfs.Db.Content.Stored.{stored, IsTable}
use pgfs.Db.Content.Whole.{calm, bind_ok, Has}
use pgfs.Db.Keys.Entries.{rename-Keeps}
use pgfs.Db.Volume.{
  Node, directory, regular, Volume, node, pair_key, moved_tree, act, after, done, renames,
  IsMovable, CanMoveDirectory,
}
use pgfs.Db.Volume.Contents.{kept_keys}
use pgfs.Db.Volume.Shows.{Represents, Shows, Shows-same, IsDirectory}
use pgfs.Db.Volume.Trees.{node-moved_tree, not_tree-node, has_tree-remove, has_tree-has_below}
use pgfs.Db.Volume.Renames.{Moves, can_move, file-Moves}

row_to_meta-parent :
    (r : EntryRow) (t : Str) → row_to_meta (record r { parent = t }) ≡ row_to_meta r
unfolding row_to_meta
row_to_meta-parent r t = refl

-- A name that has the rows of another, with another parent, shows what that showed.
Shows-with_parent :
    (t a u : Str) (o : Option Node) (s s' : Db)
    → find_entry t u s'.tables.entries ≡ with_parent t (find_entry a u s.tables.entries)
    → ((k : ℕ) → stored t u k s'.tables.blocks ≡ stored a u k s.tables.blocks)
    → IsTable s'.tables.blocks
    → Shows a u o s
    → Shows t u o s'
Shows-with_parent t a u none s s' e b table (h, k) = (e ∙ ap (with_parent t) h, λ i. b i ∙ k i)
Shows-with_parent t a u (some directory) s s' e b table h = record {
  row = record h.row { parent = t };
  attributes = h.attributes;
  found = e ∙ ap (with_parent t) h.found;
  read = row_to_meta-parent h.row t ∙ h.read;
  is_dir = h.is_dir;
  size = h.size;
  no_blocks = λ k. b k ∙ h.no_blocks k;
}
Shows-with_parent t a u (some (regular f)) s s' e b table h = record {
  row = record h.row { parent = t };
  attributes = h.attributes;
  has = record {
    found = e ∙ ap (with_parent t) h.has.found;
    attributes = row_to_meta-parent h.row t ∙ h.has.attributes;
    table = table;
  };
  is_file = h.is_file;
  size = h.size;
  fits = h.fits;
  at_byte = λ i small. ground (arith, h.at_byte i small, b (i / block_size));
}

module _ (p n q m : Str) (v : Volume) (s : Db) (r : Represents v s)
    (different : (p == q && n == m) ≡ false) (h : IsDirectory p n s)
    (c : CanMoveDirectory p n q m v) where
  abbrev op : Str
  op = join p n

  abbrev np : Str
  np = join q m

  nothing-Shows : (x u : Str) → is_below x ≡ true → Shows (np ++ x) u none s
  nothing-Shows x u b =
      let nothing = not_tree-node np x u v c.nothing_there b in
      let shown = r.shows (np ++ x) u in rw (nothing) at shown

  movable : CanMoveTree p n q m s
  movable = record {
    plain = c.plain;
    short = c.short;
    source_outside = c.source_outside;
    target_outside = c.target_outside;
    above = c.above;
    no_entries = λ x u b. (nothing-Shows x u b).0;
    no_blocks = λ x u k b. (nothing-Shows x u b).1 k;
  }

  source_beside : tail_of np p ≡ none
  source_beside = elim (Option-cases (tail_of np p)) [
    | inl e ↦ e
    | inr (x, e) ↦
        let (at, b) = tail_of-some np p x e in
        absurd (
          ground
            (arith, ap (λ z. find_entry z n s.tables.entries) at, h.found, (nothing-Shows x n b).0))
  ]

  abbrev result : Volume
  result = put (q, m) directory (moved_tree op np (remove (p, n) v))

  source_apart : (x : Str) → is_below x ≡ true → (p == op ++ x) ≡ false
  source_apart x b =
      ground (arith, str_key.same_iff p (op ++ x), tail_of-append op x b, c.source_outside)

  node-result :
      (t u : Str)
      → node t u result ≡ (
          if q == t && m == u
          then some directory
          else if p == t && n == u
          then none
          else elim (tail_of np t) [
            | some x ↦ node (op ++ x) u v
            | none ↦ elim (tail_of op t) [ some _ ↦ none | none ↦ node t u v ]
          ])
  node-result t u =
      let puts = get-put (q, m) (t, u) directory (moved_tree op np (remove (p, n) v)) in
      let moves =
        node-moved_tree op np t u (remove (p, n) v) (has_tree-remove np p n v c.nothing_there) in
      elim (Bool-cases (q == t && m == u)) [
        | inl e ↦ rw (puts, e) refl
        | inr e ↦ elim (Bool-cases (p == t && n == u)) [
          | inl g ↦
              let pt : p ≡ t = ground (arith, str_key.same_iff p t) in
              let beside : tail_of np t ≡ none = ap (tail_of np) (sym pt) ∙ source_beside in
              let outside : tail_of op t ≡ none = ap (tail_of op) (sym pt) ∙ c.source_outside in
              rw (puts, e, moves, beside, outside, get-remove (p, n) (t, u) v, g) refl
          | inr g ↦ elim (Option-cases (tail_of np t)) [
            | inr (x, k) ↦
                let apart = source_apart x (tail_of-some np t x k).1 in
                rw (puts, e, moves, k, get-remove (p, n) (op ++ x, u) v, apart, g) refl
            | inl k ↦ elim (Option-cases (tail_of op t)) [
              | inr (y, j) ↦ rw (puts, e, moves, k, j, g) refl
              | inl j ↦ rw (puts, e, moves, k, j, get-remove (p, n) (t, u) v, g) refl
            ]
          ]
        ]
      ]

  module _ (s' : Db) (w : RenamesTree p n q m h.row s s') (table : IsTable s'.tables.blocks) where
    moved-IsDirectory : IsDirectory q m s'
    moved-IsDirectory = record {
      row = record h.row { parent = q; name = m; mtime = s.now };
      attributes = record h.attributes { name = m; mtime = s.now };
      found = ground (arith, w.entries q m, str_key.same_iff q q, str_key.same_iff m m);
      read = row_to_meta-moved h.row h.attributes q m s.now h.read;
      is_dir = h.is_dir;
      size = h.size;
      no_blocks = λ k.
          ground (arith, w.blocks q m k, h.no_blocks k, str_key.same_iff q q, str_key.same_iff m m);
    }

    Shows-result : (t u : Str) → Shows t u (node t u result) s'
    Shows-result t u = elim (Bool-cases (q == t && m == u)) [
      | inl e ↦
          let qt : q ≡ t = ground (arith, str_key.same_iff q t) in
          let mu : m ≡ u = ground (arith, str_key.same_iff m u) in
          rw (node-result t u, e, ← qt, ← mu) moved-IsDirectory
      | inr e ↦ elim (Bool-cases (p == t && n == u)) [
        | inl g ↦
            rw (node-result t u, e, g)
              (ground (arith, e, g, w.entries t u), λ k. ground (arith, e, g, w.blocks t u k))
        | inr g ↦ elim (Option-cases (tail_of np t)) [
          | inr (x, k) ↦
              rw (node-result t u, e, g, k)
                (Shows-with_parent t (op ++ x) u (node (op ++ x) u v) s s'
                  (ground (arith, e, g, k, w.entries t u))
                  (λ i. ground (arith, e, g, k, w.blocks t u i)) table (r.shows (op ++ x) u))
          | inl k ↦ elim (Option-cases (tail_of op t)) [
            | inr (y, j) ↦
                rw (node-result t u, e, g, k, j)
                  (
                    ground (arith, e, g, k, j, w.entries t u),
                    λ i. ground (arith, e, g, k, j, w.blocks t u i),
                  )
            | inl j ↦
                rw (node-result t u, e, g, k, j)
                  (Shows-same t u (node t u v) s s' (ground (arith, e, g, k, j, w.entries t u))
                    (λ i. ground (arith, e, g, k, j, w.blocks t u i)) table (r.shows t u))
          ]
        ]
      ]
    ]

  directory-Moves : Moves p n q m v s r different (some directory)
  directory-Moves =
      let has : Has p n h.row h.attributes s = record {
        found = h.found;
        attributes = h.read;
        table = r.table;
      } in
      let empty = has_tree-has_below np v c.nothing_there in
      let (s', runs, w) =
        rename-RenamesTree p n q m h.row h.attributes s has (can_move p n q m v s r different empty)
          movable h.is_dir in
      let keys = kept_keys (rename p n q m) tt v s s' (rename-Keeps p n q m) runs r in
      (
        s',
        bind_ok (rename p n q m) _ (calm s) runs,
        record { keyed = keys.0; table = keys.1; shows = Shows-result s' w keys.1 },
      )

renames_to :
    (p n q m : Str) (v : Volume) (s : Db) (r : Represents v s)
    (different : (p == q && n == m) ≡ false) (o : Option Node)
    → Shows p n o s
    → IsMovable p n q m o v
    → Moves p n q m v s r different o
renames_to p n q m v s r different none h c = absurd c
renames_to p n q m v s r different (some directory) h c =
    directory-Moves p n q m v s r different h c
renames_to p n q m v s r different (some (regular f)) h c = file-Moves p n q m v s r different f h c

pub renames-Represents :
    (p n q m : Str) (v : Volume) (s : Db)
    → Represents v s
    → (p == q && n == m) ≡ false
    → IsMovable p n q m (node p n v) v
    → (s' : Db) × (act (renames p n q m) (calm s) ≡ (ok done, calm s'))
      × Represents (after (renames p n q m) v) s'
renames-Represents p n q m v s r different c =
    renames_to p n q m v s r different (node p n v) (r.shows p n) c
