-- ===== src/Db/Names/Moved/Tail.antt =====
-- The paths at and below a directory, for `Db::rename` (src/db.rs).
use pgfs.Prelude.{
  ◌^◌, ◌<◌, ◌≡◌, ◌∙◌, ap, refl, true, false, Option, none, some, [], ◌∷◌, ◌++◌, arith, Str, str_key,
  nat_beq, length, if◌then◌else◌, Bool-cases, Option-cases, ◌⊎◌, inl, inr,
}
use pgfs.Db.Like.{is_descendant, moved_parent}
use pgfs.Db.Like.Plain.{is_plain, is_below, is_descendant_lem}

-- What stands behind the path `p` in `t`, where `t` is `p` or a path below it.
abbrev pub tail_of : Str → Str → Option Str
tail_of [] [] = some []
tail_of [] (c ∷ t) = if nat_beq c b'/' then some (c ∷ t) else none
tail_of (d ∷ p) [] = none
tail_of (d ∷ p) (c ∷ t) = let rest = tail_of p t in if nat_beq d c then rest else none

pub tail_of-some : (p t x : Str) → tail_of p t ≡ some x → (t ≡ p ++ x) × (is_below x ≡ true)
tail_of-some [] [] x h = ground (arith, h)
tail_of-some [] (c ∷ t) x h = ground (arith, h)
tail_of-some (d ∷ p) [] x h = ground (arith, h)
tail_of-some (d ∷ p) (c ∷ t) x h =
    let (e, b) = tail_of-some p t x (ground (arith, h)) in (ground (arith, e, h), b)

pub tail_of-append : (p x : Str) → is_below x ≡ true → tail_of p (p ++ x) ≡ some x
tail_of-append [] [] h = refl
tail_of-append [] (c ∷ x) h = ground (arith, h)
tail_of-append (d ∷ p) x h = ground (arith, tail_of-append p x h)

pub append_cancel : (p x y : Str) → p ++ x ≡ p ++ y → x ≡ y
append_cancel [] x y e = e
append_cancel (c ∷ p) x y e = append_cancel p x y (ground (arith, e))

module _ (op np : Str) (plain : is_plain op ≡ true) (short : length op < 2 ^ 32) where
  -- A path below the old one gets the new one; another stays.
  pub parent_cases :
      (a : Str)
      → ((x : Str) × (a ≡ op ++ x)
          × (is_below x ≡ true)
          × (is_descendant op a ≡ true)
          × (moved_parent op np a ≡ np ++ x))
        ⊎ ((is_descendant op a ≡ false) × (tail_of op a ≡ none))
  parent_cases a =
      let (found, same, new) = is_descendant_lem op plain short in
      elim (Option-cases (tail_of op a)) [
        | inr (x, e) ↦
            let (at, below) = tail_of-some op a x e in
            inl (
              x,
              at,
              below,
              ap (is_descendant op) at ∙ same x ∙ below,
              ap (moved_parent op np) at ∙ new np x,
            )
        | inl e ↦ elim (Bool-cases (is_descendant op a)) [
          | inr d ↦ inr (d, e)
          | inl d ↦
              let (x, at, below) = found a d in
              absurd (ground (arith, e, ap (tail_of op) at, tail_of-append op x below))
        ]
      ]
