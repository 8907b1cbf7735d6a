-- ===== src/Db/Names/Insert.antt =====
-- `Db::create` and `Db::mkdir` (src/db.rs), where no statement fails.
use pgfs.Prelude.{
  ℕ, ◌≡◌, refl, ◌&&◌, Option, none, some, List, [], ◌∷◌, ◌++◌, arith, Str, codes, str_key, ◌==◌,
  if◌then◌else◌, Option-cases, inl, inr,
}
use pgfs.Db.Rows.{EntryRow, ok, is_entry, find_entry, insert_entry}
use pgfs.Db.Exec.{Db, update, execute}
use pgfs.Db.Names.{insert, create, mkdir}
use pgfs.Db.Content.Whole.{calm}

abbrev pub row_or : Option EntryRow → EntryRow → EntryRow
row_or none new = new
row_or (some r) new = r

abbrev pub new_row : Str → Str → Str → ℕ → EntryRow
new_row kind p n now = record { parent = p; name = n; kind = kind; size = 0; mtime = now }

find_entry-append :
    (q m : Str) (rows : List EntryRow) (new : EntryRow)
    → find_entry q m (rows ++ new ∷ [])
      ≡ (if is_entry q m new then some (row_or (find_entry q m rows) new) else find_entry q m rows)
unfolding find_entry
find_entry-append q m [] new = ground arith
find_entry-append q m (r ∷ rs) new = ground (arith, find_entry-append q m rs new)

-- The entries after the insertion of one under the name, which is kept if there is one; the blocks are
-- as before.
abbrev pub Inserts : Str → Str → Str → Db → Db → Type 0
Inserts kind p n s s' =
    ((q m : Str)
      → find_entry q m s'.tables.entries ≡ (
          if p == q && n == m
          then some (row_or (find_entry p n s.tables.entries) (new_row kind p n s.now))
          else find_entry q m s.tables.entries))
    × (s'.tables.blocks ≡ s.tables.blocks)

pub find_entry-insert_entry :
    (kind p n q m : Str) (now : ℕ) (rows : List EntryRow)
    → find_entry q m (insert_entry p n kind now rows) ≡ (
        if p == q && n == m
        then some (row_or (find_entry p n rows) (new_row kind p n now))
        else find_entry q m rows)
unfolding insert_entry
find_entry-insert_entry kind p n q m now rows = elim (Option-cases (find_entry p n rows)) [
  | inl e ↦
      rw (e, insert_entry)
        (ground (
          arith,
          e,
          find_entry-append q m rows (new_row kind p n now),
          str_key.same_iff p q,
          str_key.same_iff n m,
        ))
  | inr (r, e) ↦
      rw (e, insert_entry) (ground (arith, e, str_key.same_iff p q, str_key.same_iff n m))
]

abbrev pub inserted : Str → Str → Str → Db → Db
inserted kind p n s = record s {
  tables = record s.tables { entries = insert_entry p n kind s.now s.tables.entries };
}

-- Where no statement fails, `create` and `mkdir` succeed. Afterwards the name has the entry that it
-- had, and otherwise a new one of size 0, of the right kind and with the server's time; all other
-- names have the entries that they had, and the blocks are as before.
pub insert-Inserts :
    (p n : Str) (s : Db)
    → ((s' : Db) × (create p n (calm s) ≡ (ok tt, calm s')) × Inserts (codes "file") p n s s')
      × ((s' : Db) × (mkdir p n (calm s) ≡ (ok tt, calm s')) × Inserts (codes "dir") p n s s')
unfolding create mkdir insert update execute
insert-Inserts p n s = (
  (
    inserted (codes "file") p n s,
    refl,
    (λ q m. find_entry-insert_entry (codes "file") p n q m s.now s.tables.entries, refl),
  ),
  (
    inserted (codes "dir") p n s,
    refl,
    (λ q m. find_entry-insert_entry (codes "dir") p n q m s.now s.tables.entries, refl),
  ),
)
