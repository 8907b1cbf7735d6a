-- ===== src/Db/Types.antt =====
-- The types of the columns of `entries` (src/db.rs): the checks of `row_to_meta` never fail.
pub mod Contents
pub mod Entries
pub mod Session
use pgfs.Prelude.{
  ℕ, ◌^◌, ◌<◌, ◌≡◌, ◌⊎◌, refl, arith, Bool, ◌==◌, str_key, Option, none, some, Str, codes, Each,
  ltb, leb, if◌then◌else◌,
}
use pgfs.Db.Rows.{
  Tables, EntryRow, FileMeta, Result, ok, err, panic, Error, db_error, unexpected_kind,
  negative_size, row_to_meta, find_entry,
}
use pgfs.Db.Exec.{Exec, lift, query, ◌>>=◌}
use pgfs.Db.Replica.{meta_of, getattr_primary}
use pgfs.Db.Content.{size_or_zero}
use pgfs.Db.Keeps.{Keeps, keeps_rules, Yields, Yields-bind}

-- A size that is not negative as a `bigint`.
abbrev pub IsSize : ℕ → Type 0
IsSize size = size < 2 ^ 63

-- A row of a file or a directory.
abbrev pub IsTyped : EntryRow → Type 0
IsTyped r = ((r.kind ≡ codes "file") ⊎ (r.kind ≡ codes "dir")) × IsSize r.size

abbrev pub AreTyped : Tables → Type 0
AreTyped t = Each IsTyped t.entries

pub getattr_primary-Keeps : (p n : Str) → Keeps AreTyped (getattr_primary p n)
unfolding getattr_primary
getattr_primary-Keeps p n = search keeps_rules

meta_of-IsSize :
    (row : Option EntryRow) (o : Option FileMeta) → meta_of row ≡ ok o → IsSize (size_or_zero o)
unfolding meta_of row_to_meta
meta_of-IsSize none o e = ground (arith, e)
meta_of-IsSize (some r) o e = ground (arith, e)

-- A size that is read is no negative one, whatever the table holds.
pub getattr_primary-Yields :
    (p n : Str) → Yields (λ o. IsSize (size_or_zero o)) (getattr_primary p n)
unfolding getattr_primary
getattr_primary-Yields p n =
    Yields-bind _ _ _ (λ row. record { at = λ s o e. meta_of-IsSize row o e })
