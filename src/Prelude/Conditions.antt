-- ===== src/Prelude/Conditions.antt =====
-- A condition on each element of a list, and the operations on lists that keep it.
use mathlib.Core.Bool.{Bool, true, false}
use mathlib.Core.List.{List, [], ◌∷◌, ◌++◌, map}
use pgfs.Prelude.Tests.{if◌then◌else◌}
use pgfs.Prelude.Lists.{filterb}

abbrev pub Each {ℓ} : {R : Type ℓ} → (R → Type 0) → List R → Type 0
Each P [] = Unit {0}
Each P (r ∷ rs) = P r × Each P rs

module _ {ℓ} {R : Type ℓ} (P : R → Type 0) where
  pub Each-map :
      (f : R → R) → ((r : R) → P r → P (f r)) → (rs : List R) → Each P rs → Each P (map f rs)
  Each-map f k [] h = tt
  Each-map f k (r ∷ rs) (h, hs) = (k r h, Each-map f k rs hs)

  pub Each-append : (rs : List R) (x : R) → Each P rs → P x → Each P (rs ++ x ∷ [])
  Each-append [] x h k = (k, tt)
  Each-append (r ∷ rs) x (h, hs) k = (h, Each-append rs x hs k)

  pub Each-if : (b : Bool) (rs ss : List R) → Each P rs → Each P ss → Each P (if b then rs else ss)
  Each-if true rs ss h k = h
  Each-if false rs ss h k = k

  pub Each-filterb : (p : R → Bool) (rs : List R) → Each P rs → Each P (filterb p rs)
  Each-filterb p [] h = tt
  Each-filterb p (r ∷ rs) (h, hs) =
      let rest = Each-filterb p rs hs in
      Each-if (p r) (r ∷ filterb p rs) (filterb p rs) (h, rest) rest
