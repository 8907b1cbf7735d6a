-- ===== src/Db/Names/Rmdir.antt =====
-- `Db::rmdir` (src/db.rs), where no statement fails.
use pgfs.Prelude.{
  ◌≡◌, refl, Bool, true, false, not, ◌&&◌, Option, none, some, List, [], ◌∷◌, arith, Str, str_key,
  ◌==◌, ltb, if◌then◌else◌, filterb, length, Bool-cases, inl, inr,
}
use pgfs.Path.{join}
use pgfs.Db.Rows.{EntryRow, ok, is_entry, find_entry, delete_entry, has_children}
use pgfs.Db.Exec.{Db, query, execute}
use pgfs.Db.Names.{rmdir, delete_counted}
use pgfs.Db.Names.Unlink.{find_entry-delete_entry}
use pgfs.Db.Content.Whole.{calm}

abbrev pub is_some {ℓ} : {A : Type ℓ} → Option A → Bool
is_some none = false
is_some (some a) = true

and_true : (b : Bool) → (b && true) ≡ b
and_true true = refl
and_true false = refl

and_false : (b : Bool) → (b && false) ≡ false
and_false true = refl
and_false false = refl

pub counted_lem :
    (p n : Str) (rows : List EntryRow)
    → ltb 0 (length (filterb (is_entry p n) rows)) ≡ is_some (find_entry p n rows)
unfolding find_entry
counted_lem p n [] = ground arith
counted_lem p n (r ∷ rs) = ground (arith, counted_lem p n rs)

-- The entry of the name is gone if it was there with nothing below it; all others are as before, and so
-- are all blocks.
pub record Rmdirs (p n : Str) (s s' : Db) : Type 0 where
  pub entries :
      (q m : Str)
      → find_entry q m s'.tables.entries ≡ (
          if p == q && n == m && not (has_children (join p n) s.tables.entries)
          then none
          else find_entry q m s.tables.entries)
  pub blocks : s'.tables.blocks ≡ s.tables.blocks

abbrev removed : Str → Str → Db → Db
removed p n s = record s {
  tables = record s.tables { entries = delete_entry p n s.tables.entries };
}

-- Where no statement fails, `rmdir` succeeds. It answers whether the name had an entry and no entry
-- has its path as parent, and then, and only then, the entry is gone; all other entries and all
-- blocks are as before.
pub rmdir-Rmdirs :
    (p n : Str) (s : Db)
    → (s' : Db) × (rmdir p n (calm s) ≡ (
      ok (
          is_some (find_entry p n s.tables.entries)
          && not (has_children (join p n) s.tables.entries)),
      calm s',
    ))
      × Rmdirs p n s s'
unfolding rmdir delete_counted query execute
rmdir-Rmdirs p n s = elim (Bool-cases (has_children (join p n) s.tables.entries)) [
  | inl e ↦ (
    s,
    rw (e, and_false (is_some (find_entry p n s.tables.entries))) refl,
    record { entries = λ q m. ground arith; blocks = refl },
  )
  | inr e ↦ (
    removed p n s,
    rw (e, and_true (is_some (find_entry p n s.tables.entries)), counted_lem p n s.tables.entries)
        refl,
    record {
      entries = λ q m. ground (arith, find_entry-delete_entry p n q m s.tables.entries);
      blocks = refl;
    },
  )
]
