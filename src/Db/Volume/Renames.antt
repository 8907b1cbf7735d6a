-- ===== src/Db/Volume/Renames.antt =====
-- `rename` of a file (src/db.rs) on a database that holds a map, where no statement fails.
use pgfs.Prelude.{
  ℕ, ◌≡◌, ◌∙◌, refl, false, ◌&&◌, Option, none, some, arith, Str, str_key, ◌==◌, if◌then◌else◌,
  Bool-cases, inl, inr,
}
use pgfs.Dict.{get-put, get-remove, put, remove}
use pgfs.Path.{join}
use pgfs.Block.{Bytes}
use pgfs.Db.Rows.{ok, find_entry}
use pgfs.Db.Exec.{Db}
use pgfs.Db.Names.{rename}
use pgfs.Db.Names.Rename.{rename-Renames, Renames, CanMove}
use pgfs.Db.Content.Stored.{stored, IsTable}
use pgfs.Db.Content.Whole.{calm, bind_ok}
use pgfs.Db.Content.File.{Holds}
use pgfs.Db.Names.RenamedFile.{Renames-Holds}
use pgfs.Db.Keys.Entries.{rename-Keeps}
use pgfs.Db.Volume.{
  Node, directory, regular, Volume, node, pair_key, moved, act, done, renames, has_below,
}
use pgfs.Db.Volume.Contents.{kept_keys}
use pgfs.Db.Volume.Shows.{Represents, Shows, Shows-same, has_below-has_children}

no_orphans :
    (q m : Str) (s : Db) (o : Option Node)
    → Shows q m o s
    → find_entry q m s.tables.entries ≡ none
    → (k : ℕ) → stored q m k s.tables.blocks ≡ none
no_orphans q m s none h e = h.1
no_orphans q m s (some directory) h e = h.no_blocks
no_orphans q m s (some (regular f)) h e = absurd (ground (arith, e, h.has.found))

module _ (p n q m : Str) (v : Volume) (s : Db) (r : Represents v s)
    (different : (p == q && n == m) ≡ false) where
  pub can_move : has_below (join q m) v ≡ false → CanMove p n q m s
  can_move empty = record {
    different = different;
    keyed = r.keyed;
    table = r.table;
    nothing_below = has_below-has_children (join q m) v s r ∙ empty;
    no_orphans = no_orphans q m s (node q m v) (r.shows q m);
  }

  module _ (f : Bytes) (h : Holds p n f s) (s' : Db) (w : Renames p n q m h.row s s')
      (table : IsTable s'.tables.blocks) where
    node-moved :
        (t u : Str)
        → node t u (put (q, m) (regular f) (remove (p, n) v)) ≡ (
            if q == t && m == u
            then some (regular f)
            else if p == t && n == u
            then none
            else node t u v)
    node-moved t u =
        rw (get-put (q, m) (t, u) (regular f) (remove (p, n) v), get-remove (p, n) (t, u) v) refl

    Shows-moved : (t u : Str) → Shows t u (node t u (put (q, m) (regular f) (remove (p, n) v))) s'
    Shows-moved t u = elim (Bool-cases (q == t && m == u)) [
      | inl e ↦
          let qt : q ≡ t = ground (arith, str_key.same_iff q t) in
          let mu : m ≡ u = ground (arith, str_key.same_iff m u) in
          rw (node-moved t u, e, ← qt, ← mu) (Renames-Holds p n q m f s h s' w table)
      | inr e ↦ elim (Bool-cases (p == t && n == u)) [
        | inl g ↦
            rw (node-moved t u, e, g)
              (ground (arith, e, g, w.entries t u), λ k. ground (arith, e, g, w.blocks t u k))
        | inr g ↦
            rw (node-moved t u, e, g)
              (Shows-same t u (node t u v) s s' (ground (arith, e, g, w.entries t u))
                (λ k. ground (arith, e, g, w.blocks t u k)) table (r.shows t u))
      ]
    ]

  abbrev pub Moves : Option Node → Type 0
  Moves o =
      (s' : Db) × (act (renames p n q m) (calm s) ≡ (ok done, calm s'))
      × Represents (moved p n q m o v) s'

  pub file-Moves :
      (f : Bytes) → Holds p n f s → has_below (join q m) v ≡ false → Moves (some (regular f))
  file-Moves f h empty =
      let (s', runs, w) =
        rename-Renames p n q m h.row h.attributes s h.has (can_move empty) h.is_file in
      let keys = kept_keys (rename p n q m) tt v s s' (rename-Keeps p n q m) runs r in
      (
        s',
        bind_ok (rename p n q m) _ (calm s) runs,
        record { keyed = keys.0; table = keys.1; shows = Shows-moved f h s' w keys.1 },
      )
