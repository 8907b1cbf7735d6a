-- ===== src/Db/Like/Plain.antt =====
-- The descendants that `Db::rename` (src/db.rs) finds, for a directory whose path is plain.
use pgfs.Prelude.{
  append_nil, ℕ, ◌^◌, ◌<◌, ◌≡◌, ◌∙◌, ap, sym, refl, Bool, true, false, ◌||◌, ◌&&◌, [], ◌∷◌, ◌++◌,
  arith, Str, codes, str_len, utf8_width, str_key, str_beq, ◌==◌, nat_beq, ltb, if◌then◌else◌, drop,
  length, as_i32, Bool-cases, inl, inr,
}
use pgfs.Db.Like.{any_run, literal, wilds, like, is_descendant, moved_parent}

-- An ASCII character other than `%`, `_` and the backslash.
abbrev pub is_plain_char : ℕ → Bool
is_plain_char c =
    ltb c 0x80
    && (if nat_beq c b'%'
        then false
        else if nat_beq c b'_'
        then false
        else if nat_beq c 0x5c
        then false
        else true)

abbrev pub is_plain : Str → Bool
is_plain [] = true
is_plain (c ∷ s) = is_plain_char c && is_plain s

-- What stands behind the path of a directory in its own path and in those below it.
abbrev pub is_below : Str → Bool
is_below [] = true
is_below (c ∷ s) = nat_beq c b'/'

wilds-plain : (c : ℕ) (s : Str) → is_plain_char c ≡ true → wilds (c ∷ s) ≡ literal c ∷ wilds s
unfolding wilds
wilds-plain c [] h = ground arith
wilds-plain c (d ∷ s) h = ground arith

like_run : (t : Str) → like (any_run ∷ []) t ≡ true
unfolding like
like_run [] = refl
like_run (c ∷ t) = like_run t

-- The text behind the path, where it is not empty.
abbrev is_inside : Str → Bool
is_inside [] = false
is_inside (c ∷ t) = nat_beq c b'/'

like_slash : (t : Str) → like (wilds (codes "/%")) t ≡ is_inside t
unfolding like wilds
like_slash [] = refl
like_slash (c ∷ t) = ground (arith, like_run t)

-- The pattern matches what begins with the path and goes on with a slash.
like-append :
    (p t : Str) → is_plain p ≡ true → like (wilds (p ++ codes "/%")) (p ++ t) ≡ is_inside t
unfolding like
like-append [] t h = like_slash t
like-append (c ∷ p) t h =
    rw (wilds-plain c (p ++ codes "/%") (ground arith)) (ground (arith, like-append p t))

like_prefix :
    (p s : Str)
    → is_plain p ≡ true
    → like (wilds (p ++ codes "/%")) s ≡ true
    → (t : Str) × (s ≡ p ++ t)
unfolding like
like_prefix [] s h l = (s, refl)
like_prefix (c ∷ p) [] h l =
    absurd (cc (ap (λ ws. like ws []) (wilds-plain c (p ++ codes "/%") (ground arith)), l))
like_prefix (c ∷ p) (d ∷ s) h l =
    let m : like (literal c ∷ wilds (p ++ codes "/%")) (d ∷ s) ≡ true =
      ap (λ ws. like ws (d ∷ s)) (sym (wilds-plain c (p ++ codes "/%") (ground arith))) ∙ l in
    let (t, e) = like_prefix p s (ground arith) (ground arith) in (t, ground (arith, e, m))

str_beq-append : (p t : Str) → str_beq (p ++ t) p ≡ str_beq t []
unfolding str_beq
str_beq-append [] t = refl
str_beq-append (c ∷ p) t = ground (arith, str_beq-append p t)

below_cases : (t : Str) → (str_beq t [] || is_inside t) ≡ is_below t
unfolding str_beq
below_cases [] = refl
below_cases (c ∷ t) = refl

str_len-plain : (p : Str) → is_plain p ≡ true → str_len p ≡ length p
unfolding str_len utf8_width
str_len-plain [] h = refl
str_len-plain (c ∷ p) h = ground (arith, str_len-plain p)

drop-append : (p t : Str) → drop (length p) (p ++ t) ≡ t
drop-append [] t = refl
drop-append (c ∷ p) t = drop-append p t

is_descendant-append : (p t : Str) → is_plain p ≡ true → is_descendant p (p ++ t) ≡ is_below t
unfolding is_descendant
is_descendant-append p t h = rw (str_beq-append p t, like-append p t h) (below_cases t)

is_descendant_prefix :
    (p s : Str) → is_plain p ≡ true → is_descendant p s ≡ true → (t : Str) × (s ≡ p ++ t)
unfolding is_descendant
is_descendant_prefix p s h d = elim (Bool-cases (s == p)) [
  | inl e ↦ ([], (str_key.same_iff s p).0 e ∙ sym (append_nil p))
  | inr n ↦ like_prefix p s h (ground (arith, n, d))
]

-- For a directory whose path is ASCII with no `%`, `_` or backslash, and of less than 2^32 bytes, the
-- statements find exactly the rows whose parent is the directory or lies below it, and give each the
-- new path in place of the old one.
pub is_descendant_lem :
    (p : Str)
    → is_plain p ≡ true
    → length p < 2 ^ 32
    → ((s : Str) → is_descendant p s ≡ true → (t : Str) × (s ≡ p ++ t) × (is_below t ≡ true))
      × ((t : Str) → is_descendant p (p ++ t) ≡ is_below t)
      × ((new t : Str) → moved_parent p new (p ++ t) ≡ new ++ t)
unfolding moved_parent
is_descendant_lem p h short = (
  λ s d.
      let (t, e) = is_descendant_prefix p s h d in
      (t, e, sym (is_descendant-append p t h) ∙ ap (is_descendant p) (sym e) ∙ d),
  λ t. is_descendant-append p t h,
  λ new t.
      let n : as_i32 (str_len p) ≡ length p = ground (arith, str_len-plain p h) in
      rw (n, drop-append p t) refl,
)
