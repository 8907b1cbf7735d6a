-- ===== src/Db/Volume/Entries.antt =====
-- The operations of src/db.rs on entries, on a database that holds a map, where no statement fails.
use pgfs.Prelude.{
  ℕ, ◌≡◌, ◌≢◌, ◌∙◌, ap, refl, Option, none, some, [], arith, Str, codes, str_key, str_beq,
  Bool-cases, Option-cases, inl, inr,
}
use pgfs.Dict.{get-put, get-remove, remove}
use pgfs.Path.{join}
use pgfs.Db.Rows.{dir, ok, row_to_meta, find_entry}
use pgfs.Db.Exec.{Db, update, execute}
use pgfs.Db.Names.{create, mkdir, insert, unlink, rmdir}
use pgfs.Db.Names.Insert.{inserted, new_row, find_entry-insert_entry}
use pgfs.Db.Names.Unlink.{unlink-Unlinks}
use pgfs.Db.Names.Rmdir.{rmdir-Rmdirs, is_some}
use pgfs.Db.Content.Stored.{stored}
use pgfs.Db.Content.Whole.{calm, bind_ok}
use pgfs.Db.Content.Edits.{create-Holds}
use pgfs.Db.Keys.Entries.{insert_entry-IsKeyed, unlink-Keeps, rmdir-Keeps}
use pgfs.Db.Volume.{
  Node, directory, regular, Volume, node, pair_key, added, act, after, answered, done, creates,
  mkdirs, unlinks, rmdirs, IsNotRegular, is_there, has_below,
}
use pgfs.Db.Volume.Contents.{kept_keys}
use pgfs.Db.Volume.Shows.{
  Represents, Shows, Shows-same, IsDirectory, Shows-is_there, changed-Represents,
  has_below-has_children,
}

-- A new entry of the kind, or the one that is there.
module _ (kind p n : Str) (x : Node) (v : Volume) (s : Db) (r : Represents v s)
    (new : find_entry p n s.tables.entries ≡ none
      → ((k : ℕ) → stored p n k s.tables.blocks ≡ none)
      → Shows p n (some x) (inserted kind p n s)) where
  inserted_to :
      (o : Option Node)
      → Shows p n o s
      → (o ≡ none → Shows p n (some x) (inserted kind p n s))
      → Represents (added p n x o v) (inserted kind p n s)
  inserted_to none h k =
      changed-Represents p n (some x) v _ s (inserted kind p n s) (λ q m. get-put (p, n) (q, m) x v)
        (λ q m other. ground (arith, find_entry-insert_entry kind p n q m s.now s.tables.entries))
        (λ q m i other. refl) (insert_entry-IsKeyed p n kind s.now s.tables.entries r.keyed) r.table
        (k refl) r
  inserted_to (some y) h k = record {
    keyed = insert_entry-IsKeyed p n kind s.now s.tables.entries r.keyed;
    table = r.table;
    shows = λ q m.
        Shows-same q m (node q m v) s (inserted kind p n s) (kept_entry q m) (λ i. refl) r.table
          (r.shows q m);
  }
    where
      there : find_entry p n s.tables.entries ≢ none
      there e = absurd (cc ((Shows-is_there p n (some y) s h).0 e))

      kept_entry :
          (q m : Str)
          → find_entry q m (inserted kind p n s).tables.entries ≡ find_entry q m s.tables.entries
      kept_entry q m = elim (Option-cases (find_entry p n s.tables.entries)) [
        | inl e ↦ absurd (there e)
        | inr (row, e) ↦ ground (
          arith,
          e,
          find_entry-insert_entry kind p n q m s.now s.tables.entries,
          str_key.same_iff p q,
          str_key.same_iff n m,
        )
      ]

  inserted-Represents : Represents (added p n x (node p n v) v) (inserted kind p n s)
  inserted-Represents =
      inserted_to (node p n v) (r.shows p n) (λ e. let (h, k) = shows_none e in new h k)
    where
      shows_none : node p n v ≡ none → Shows p n none s
      shows_none e = rw e at (r.shows p n)

row_to_meta-new_dir :
    (p n : Str) (now : ℕ)
    → row_to_meta (new_row (codes "dir") p n now)
      ≡ ok (record { name = n; kind = dir; size = 0; mtime = now })
unfolding row_to_meta str_beq
row_to_meta-new_dir p n now = refl

new-IsDirectory :
    (p n : Str) (s : Db)
    → find_entry p n s.tables.entries ≡ none
    → ((k : ℕ) → stored p n k s.tables.blocks ≡ none)
    → IsDirectory p n (inserted (codes "dir") p n s)
new-IsDirectory p n s h k = record {
  row = new_row (codes "dir") p n s.now;
  attributes = record { name = n; kind = dir; size = 0; mtime = s.now };
  found = ground (
    arith,
    h,
    find_entry-insert_entry (codes "dir") p n p n s.now s.tables.entries,
    str_key.same_iff p p,
    str_key.same_iff n n,
  );
  read = row_to_meta-new_dir p n s.now;
  is_dir = refl;
  size = refl;
  no_blocks = k;
}

module _ (p n : Str) (v : Volume) (s : Db) (r : Represents v s) where
  pub creates-Represents :
      (act (creates p n) (calm s) ≡ (ok done, calm (inserted (codes "file") p n s)))
      × Represents (after (creates p n) v) (inserted (codes "file") p n s)
  unfolding create insert update execute
  creates-Represents = (
    refl,
    inserted-Represents (codes "file") p n (regular []) v s r
        (λ h k. (create-Holds p n s (record { no_entry = h; no_blocks = k; table = r.table })).1),
  )

  pub mkdirs-Represents :
      (act (mkdirs p n) (calm s) ≡ (ok done, calm (inserted (codes "dir") p n s)))
      × Represents (after (mkdirs p n) v) (inserted (codes "dir") p n s)
  unfolding mkdir insert update execute
  mkdirs-Represents =
      (refl, inserted-Represents (codes "dir") p n directory v s r (new-IsDirectory p n s))

  pub unlinks-Represents :
      (s' : Db) × (act (unlinks p n) (calm s) ≡ (ok done, calm s'))
      × Represents (after (unlinks p n) v) s'
  unlinks-Represents =
      let (s', runs, u) = unlink-Unlinks p n s in
      let keys = kept_keys (unlink p n) tt v s s' (unlink-Keeps p n) runs r in
      (
        s',
        bind_ok (unlink p n) _ (calm s) runs,
        changed-Represents p n none v (remove (p, n) v) s s' (λ q m. get-remove (p, n) (q, m) v)
            (λ q m other. ground (arith, other, u.entries q m))
            (λ q m k other. ground (arith, other, u.blocks q m k)) keys.0 keys.1
            (
              ground (arith, u.entries p n, str_key.same_iff p p, str_key.same_iff n n),
              λ k. ground (arith, u.blocks p n k, str_key.same_iff p p, str_key.same_iff n n),
            )
            r,
      )

  is_some-is_there :
      (o : Option Node) → Shows p n o s → is_some (find_entry p n s.tables.entries) ≡ is_there o
  is_some-is_there none h = ap is_some h.0
  is_some-is_there (some directory) h = ap is_some h.found
  is_some-is_there (some (regular f)) h = ap is_some h.has.found

  no_file_blocks :
      (o : Option Node)
      → IsNotRegular o
      → Shows p n o s
      → (k : ℕ) → stored p n k s.tables.blocks ≡ none
  no_file_blocks none i h = h.1
  no_file_blocks (some directory) i h = h.no_blocks
  no_file_blocks (some (regular f)) i h = absurd i

  pub rmdirs-Represents :
      IsNotRegular (node p n v)
      → (s' : Db) × (act (rmdirs p n) (calm s) ≡ (ok (answered (rmdirs p n) v), calm s'))
        × Represents (after (rmdirs p n) v) s'
  rmdirs-Represents i =
      let (s', runs, d) = rmdir-Rmdirs p n s in
      let keys = kept_keys (rmdir p n) _ v s s' (rmdir-Keeps p n) runs r in
      let below = has_below-has_children (join p n) v s r in
      (
        s',
        bind_ok (rmdir p n) _ (calm s) runs
            ∙ rw (is_some-is_there (node p n v) (r.shows p n), below) refl,
        elim (Bool-cases (has_below (join p n) v)) [
          | inl e ↦ rw (e) (record {
            keyed = keys.0;
            table = keys.1;
            shows = λ q m.
                Shows-same q m (node q m v) s s' (ground (arith, e, below, d.entries q m))
                  (λ k. ap (stored q m k) d.blocks) keys.1 (r.shows q m);
          })
          | inr e ↦ rw (e) (
              changed-Represents p n none v (remove (p, n) v) s s'
                (λ q m. get-remove (p, n) (q, m) v)
                (λ q m other. ground (arith, other, d.entries q m))
                (λ q m k other. ap (stored q m k) d.blocks) keys.0 keys.1
                (
                  ground
                      (arith, e, below, d.entries p n, str_key.same_iff p p, str_key.same_iff n n),
                  λ k. ap (stored p n k) d.blocks ∙ no_file_blocks (node p n v) i (r.shows p n) k,
                )
                r)
        ],
      )
