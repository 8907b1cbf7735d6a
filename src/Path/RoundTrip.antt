-- ===== src/Path/RoundTrip.antt =====
-- `split_path` undoes `join`, and `join` undoes `split_path`.
use pgfs.Prelude.{
  ◌≡◌, ◌≢◌, refl, none, some, [], ◌∷◌, ◌++◌, arith, Str, inl, inr, Option-cases, get_or, sym,
}
use pgfs.Path.{slash, join, rsplit, split_path}

-- The names that a directory entry can have: no '/' in them.
abbrev pub IsName : Str → Type 0
IsName [] = Unit {0}
IsName (c ∷ s) = (c ≢ slash) × IsName s

rsplit-IsName : (name : Str) → IsName name → rsplit name ≡ none
unfolding rsplit
rsplit-IsName [] h = refl
rsplit-IsName (c ∷ s) h = ground (arith, rsplit-IsName s h.1)

rsplit-append :
    (parent name : Str) → IsName name → rsplit (parent ++ slash ∷ name) ≡ some (parent, name)
unfolding rsplit
rsplit-append [] name h = ground (arith, rsplit-IsName name h)
rsplit-append (c ∷ parent) name h = rw (rsplit-append parent name h)

-- Splitting a joined path gives back the parent and the name, if the name has no '/'.
pub split_path-join :
    (parent name : Str) → IsName name → split_path (join parent name) ≡ (parent, name)
unfolding join split_path
split_path-join [] name h = rw (rsplit-IsName name h, split_path)
split_path-join (c ∷ parent) name h = rw (rsplit-append (c ∷ parent) name h, split_path)

-- The name that `rsplit` gives has no '/', and the two parts make up the path.
rsplit_parts :
    (path parent name : Str) → rsplit path ≡ some (parent, name) → (path ≡ parent ++ slash ∷ name)
unfolding rsplit
rsplit_parts [] parent name h = ground arith
rsplit_parts (c ∷ path) parent name h = elim (Option-cases (rsplit path)) [
  | inl e ↦ ground arith
  | inr ((p, n), e) ↦ ground (arith, rsplit_parts path p n e)
]

-- A path that does not begin with '/' is made up again of the two parts that `split_path` gives.
join-split_path :
    (path : Str) → get_or path 0 0 ≢ slash → join (split_path path).0 (split_path path).1 ≡ path
unfolding join split_path
join-split_path path h = elim (Option-cases (rsplit path)) [
  | inl e ↦ rw (e, split_path)
  | inr (([], n), e) ↦ absurd (h (rw (rsplit_parts path [] n e)))
  | inr ((c ∷ p, n), e) ↦ rw (e, split_path) (sym (rsplit_parts path (c ∷ p) n e))
]
