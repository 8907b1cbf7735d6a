-- ===== src/Path.antt =====
-- Paths (src/db.rs `join`, src/fs.rs `split_path`). A path is the names of its components, joined by
-- '/'; the root is the empty path.
pub mod RoundTrip
use pgfs.Prelude.{
  ℕ, Bool, true, false, Option, none, some, List, [], ◌∷◌, ◌++◌, Str, nat_beq, if◌then◌else◌, ◌&&◌,
}

abbrev pub slash : ℕ
slash = b'/'

unfoldable pub join : Str → Str → Str
join [] name = name
join (c ∷ parent) name = (c ∷ parent) ++ slash ∷ name

-- `path.rfind('/')` with the slices on its two sides; `none` where there is no '/'.
unfoldable pub rsplit : Str → Option (Str × Str)
rsplit [] = none
rsplit (c ∷ path) = elim (rsplit path) [
  | some (parent, name) ↦ some (c ∷ parent, name)
  | none ↦ if nat_beq c slash then some ([], path) else none
]

unfoldable pub split_path : Str → Str × Str
unfolding rsplit
split_path path = elim (rsplit path) [ some (parent, name) ↦ (parent, name) | none ↦ ([], path) ]

-- `p.strip_prefix(prefix)`: the text after `prefix`, if `p` starts with it.
unfoldable pub strip_prefix : Str → Str → Option Str
strip_prefix [] p = some p
strip_prefix (c ∷ prefix) [] = none
strip_prefix (c ∷ prefix) (d ∷ p) =
    let rest = strip_prefix prefix p in if nat_beq c d then rest else none

unfoldable pub starts_with : Str → Str → Bool
unfolding strip_prefix
starts_with p prefix = elim (strip_prefix prefix p) [ some _ ↦ true | none ↦ false ]
