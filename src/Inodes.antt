-- ===== src/Inodes.antt =====
-- The inode numbers of paths (src/fs.rs): `ino_for`, `path_of_ino` and the re-keying after a rename.
pub mod Consistent
use pgfs.Prelude.{
  ℕ, ◌+◌, Option, none, some, List, [], ◌∷◌, ◌++◌, Str, codes, str_key, nat_key, nat_beq,
  if◌then◌else◌,
}
use pgfs.Dict.{Dict, get, put, remove}
use pgfs.Path.{strip_prefix}

abbrev pub root_ino : ℕ
root_ino = 1

abbrev pub root_path : Str
root_path = []

-- The fields of `PgFs` that hold the inode numbers.
pub record Inodes : Type 0 where
  pub ino_by_path : Dict Str ℕ
  pub path_by_ino : Dict ℕ Str
  pub next_ino : ℕ

-- The maps of a new `PgFs`.
abbrev pub init : Inodes
init = record {
  ino_by_path = (root_path, root_ino) ∷ [];
  path_by_ino = (root_ino, root_path) ∷ [];
  next_ino = root_ino + 1;
}

unfoldable pub ino_for : Str → Inodes → ℕ × Inodes
unfolding get put
ino_for path t = elim (get path t.ino_by_path) [
  | some ino ↦ (ino, t)
  | none ↦ (
    t.next_ino,
    record {
      ino_by_path = put path t.next_ino t.ino_by_path;
      path_by_ino = put t.next_ino path t.path_by_ino;
      next_ino = t.next_ino + 1;
    },
  )
]

unfoldable pub path_of_ino : ℕ → Inodes → Option Str
unfolding get
path_of_ino ino t = if nat_beq ino root_ino then some root_path else get ino t.path_by_ino

-- `ino_by_path.remove(old_p)`, and the insertions of its inode number under the new path
unfoldable pub rekey : Str → Str → Inodes → Inodes
unfolding get put remove
rekey old_p new_p t = elim (get old_p t.ino_by_path) [
  | none ↦ t
  | some ino ↦ record t {
    ino_by_path = put new_p ino (remove old_p t.ino_by_path);
    path_by_ino = put ino new_p t.path_by_ino;
  }
]

-- The keys that start with `prefix_old`, each with its new path.
unfoldable pub updates : Str → Str → Dict Str ℕ → List (Str × Str)
unfolding strip_prefix
updates prefix_old prefix_new [] = []
updates prefix_old prefix_new ((p, ino) ∷ m) =
    let rest = updates prefix_old prefix_new m in
    elim (strip_prefix prefix_old p) [ none ↦ rest | some tail ↦ (p, prefix_new ++ tail) ∷ rest ]

unfoldable pub rekey_all : List (Str × Str) → Inodes → Inodes
unfolding rekey
rekey_all [] t = t
rekey_all ((old_p, new_p) ∷ us) t = rekey_all us (rekey old_p new_p t)

-- `rekey_maps`
unfoldable pub rekey_maps : Str → Str → Inodes → Inodes
unfolding rekey rekey_all updates
rekey_maps old_path new_path t =
    let t' = rekey old_path new_path t in
    rekey_all (updates (old_path ++ codes "/") (new_path ++ codes "/") t'.ino_by_path) t'

-- After `unlink` and `rmdir`: the path loses its inode number.
unfoldable pub forget : Str → Inodes → Inodes
unfolding get remove
forget path t = elim (get path t.ino_by_path) [
  | none ↦ t
  | some ino ↦ record t {
    ino_by_path = remove path t.ino_by_path;
    path_by_ino = remove ino t.path_by_ino;
  }
]
