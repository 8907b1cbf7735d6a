-- ===== src/Db/Like.antt =====
-- The condition and the value of the statements by which `Db::rename` moves the descendants of a
-- directory: `parent = $3 OR parent LIKE $3 || '/%'` and `$1 || substring(parent FROM $2 + 1)`.
pub mod Plain
use pgfs.Prelude.{
  ℕ, Bool, true, false, ◌||◌, ◌&&◌, List, [], ◌∷◌, ◌++◌, Str, codes, str_len, str_key, ◌==◌,
  nat_beq, if◌then◌else◌, drop, as_i32,
}

-- A LIKE pattern: `%`, `_`, and characters, which may be escaped by a backslash.
pub data Wild : Type 0 where
  any_run any_one : Wild
  literal : ℕ → Wild

abbrev wild_of : ℕ → Wild
wild_of c = if nat_beq c b'%' then any_run else if nat_beq c b'_' then any_one else literal c

unfoldable pub wilds : Str → List Wild
wilds [] = []
wilds (c ∷ []) = wild_of c ∷ []
wilds (c ∷ d ∷ pattern_) = elim (nat_beq c 0x5c) [
  | true ↦ literal d ∷ wilds pattern_
  | false ↦ wild_of c ∷ wilds (d ∷ pattern_)
]

unfoldable pub like : List Wild → Str → Bool
like [] [] = true
like [] (c ∷ s) = false
like (any_run ∷ ws) [] = like ws []
like (any_run ∷ ws) (c ∷ s) = like ws (c ∷ s) || like (any_run ∷ ws) s
like (any_one ∷ ws) [] = false
like (any_one ∷ ws) (c ∷ s) = like ws s
like (literal d ∷ ws) [] = false
like (literal d ∷ ws) (c ∷ s) = nat_beq c d && like ws s

unfoldable pub is_descendant : Str → Str → Bool
unfolding wilds like
is_descendant old_path parent = parent == old_path || like (wilds (old_path ++ codes "/%")) parent

-- `substring` counts characters, `old_path.len()` counts bytes.
unfoldable pub moved_parent : Str → Str → Str → Str
unfolding str_len
moved_parent old_path new_path parent = new_path ++ drop (as_i32 (str_len old_path)) parent
