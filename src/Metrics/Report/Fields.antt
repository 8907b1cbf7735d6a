-- ===== src/Metrics/Report/Fields.antt =====
-- A reader of the fields `name=number` in the lines of the periodic export (src/metrics.rs).
use pgfs.Prelude.{
  ℕ, zero, suc, ◌+◌, ◌-◌, ◌*◌, ◌/◌, ◌%◌, ◌^◌, ◌<◌, ◌≡◌, ◌∙◌, ap, Bool, true, false, ◌&&◌, ◌||◌,
  str_key, Option, none, some, List, [], ◌∷◌, ◌++◌, append_assoc, arith, Str, ltb, leb, nat_beq,
  if◌then◌else◌, u64_mod, Bool-cases, inl, inr,
}
use pgfs.Metrics.Report.{digits, decimal}

abbrev pub is_digit : ℕ → Bool
is_digit c = leb 48 c && ltb c 58

-- A text is read from left to right: in a name, so far the given one in reverse, or in the number of a
-- name.
pub data State : Type 0 where
  naming : Str → State
  numbering : Str → ℕ → State

-- A space or a bar ends a name or a number, and starts a name.
abbrev pub is_gap : ℕ → Bool
is_gap c = nat_beq c 32 || nat_beq c 124

abbrev pub backwards : Str → Str → Str
backwards [] name = name
backwards (c ∷ s) name = backwards s (c ∷ name)

-- The fields `name=number` of a text: a name is what stands between a space or a bar and an `=`, and a
-- number the digits behind it.
unfoldable pub fields : State → Str → List (Str × ℕ)
fields (naming name) [] = []
fields (numbering name n) [] = (name, n) ∷ []
fields (naming name) (c ∷ s) =
    let in_gap = fields (naming []) s in
    let in_number = fields (numbering (backwards name []) 0) s in
    let in_name = fields (naming (c ∷ name)) s in
    if is_gap c then in_gap else if nat_beq c 61 then in_number else in_name
fields (numbering name n) (c ∷ s) =
    let in_number = fields (numbering name (n * 10 + (c - 48))) s in
    let in_gap = (name, n) ∷ fields (naming []) s in if is_digit c then in_number else in_gap

fields-digit :
    (name : Str) (n d k : ℕ) (rest : Str)
    → d < 10
    → n * 10 + d ≡ k
    → fields (numbering name n) ((48 + d) ∷ rest) ≡ fields (numbering name k) rest
unfolding fields
fields-digit name n d k rest h e =
    let digit : is_digit (48 + d) ≡ true = ground arith in
    let next : n * 10 + ((48 + d) - 48) ≡ k = omega arith in
    rw (digit) (ap (λ i. fields (numbering name i) rest) next)

fields-digits :
    (fuel n : ℕ) (name rest : Str)
    → n < 10 ^ fuel
    → 0 < fuel
    → fields (numbering name 0) (digits fuel n ++ rest) ≡ fields (numbering name n) rest
unfolding digits
fields-digits zero n name rest h k = absurd (omega arith)
fields-digits (suc zero) n name rest h k =
    let small : ltb n 10 ≡ true = ground arith in
    rw (small) (fields-digit name 0 n n rest (omega arith) (omega arith))
fields-digits (suc (suc fuel)) n name rest h k = elim (Bool-cases (ltb n 10)) [
  | inl small ↦ rw (small) (fields-digit name 0 n n rest (ground (arith, small)) (omega arith))
  | inr large ↦
      rw (large, append_assoc (digits (suc fuel) (n / 10)) ((48 + n % 10) ∷ []) rest)
        (fields-digits (suc fuel) (n / 10) name ((48 + n % 10) ∷ rest) (omega arith) (omega arith)
          ∙ fields-digit name (n / 10) (n % 10) n rest (omega arith) (omega arith))
]

pub fields-decimal :
    (n : ℕ) (name rest : Str)
    → n < u64_mod
    → fields (numbering name 0) (decimal n ++ rest) ≡ fields (numbering name n) rest
unfolding decimal
fields-decimal n name rest h = fields-digits 20 n name rest (omega arith) (omega arith)

-- The name that stands before the number, if the text ends in one and has no `=` but at its end.
abbrev pub name_in : Str → Str → Option Str
name_in name [] = none
name_in name (c ∷ []) = if nat_beq c 61 then some (backwards name []) else none
name_in name (c ∷ d ∷ s) =
    let in_gap = name_in [] (d ∷ s) in
    let in_name = name_in (c ∷ name) (d ∷ s) in
    if is_gap c then in_gap else if nat_beq c 61 then none else in_name

pub fields-name_in :
    (before text s name : Str)
    → name_in before text ≡ some name
    → fields (naming before) (text ++ s) ≡ fields (numbering name 0) s
unfolding fields
fields-name_in before [] s name h = absurd (cc)
fields-name_in before (c ∷ []) s name h = ground (arith, h)
fields-name_in before (c ∷ d ∷ text) s name h =
    ground
      (arith, h, fields-name_in [] (d ∷ text) s name, fields-name_in (c ∷ before) (d ∷ text) s name)

abbrev pub starts_in_gap : Str → Bool
starts_in_gap [] = false
starts_in_gap (c ∷ s) = is_gap c

-- What ends a number.
pub fields-gap :
    (name : Str) (n : ℕ) (text s : Str)
    → starts_in_gap text ≡ true
    → fields (numbering name n) (text ++ s) ≡ (name, n) ∷ fields (naming []) (text ++ s)
unfolding fields
fields-gap name n [] s h = absurd (cc)
fields-gap name n (c ∷ text) s h = ground (arith, h)
