-- ===== src/Story.antt =====
-- Errors that tell a story (src/error.rs). The package anyhow is a parameter.
use pgfs.Prelude.{
  ℕ, Bool, true, not, ◌&&◌, Option, none, some, nat_beq, if◌then◌else◌, drop, Each, map,
  append_assoc, arith, ◌≡◌, ◌∙◌, ap, refl, List, [], ◌∷◌, ◌++◌, Str, codes,
}

-- What the source uses of `anyhow::Error`: an error of a message, an error with a context around it,
-- and the chain of messages that `{:#}` prints, the outermost first.
pub record Anyhow : Type 1 where
  pub Error : Type 0
  pub anyhow : Str → Error
  pub context : Str → Error → Error
  pub chain : Error → List Str
  pub chain-anyhow : (message : Str) → chain (anyhow message) ≡ message ∷ []
  pub chain-context : (message : Str) (e : Error) → chain (context message e) ≡ message ∷ chain e

-- `Location::caller()`; the line is its decimal text.
pub record Location : Type 0 where
  pub file : Str
  pub line : Str

unfoldable pub located : Str → Location → Str
located what loc = what ++ (codes " (at " ++ (loc.file ++ (codes ":" ++ (loc.line ++ codes ")"))))

pub data Outcome (A E : Type 0) : Type 0 where
  success : A → Outcome A E
  trouble : E → Outcome A E

-- Before the last `c` of the text, and behind it.
abbrev pub split_last : ℕ → Str → Option (Str × Str)
split_last c [] = none
split_last c (x ∷ s) = elim (split_last c s) [
  | some (before, behind) ↦ some (x ∷ before, behind)
  | none ↦ if nat_beq x c then some ([], s) else none
]

abbrev pub has_none : ℕ → Str → Bool
has_none c [] = true
has_none c (x ∷ s) = not (nat_beq x c) && has_none c s

split_last-none : (c : ℕ) (s : Str) → has_none c s ≡ true → split_last c s ≡ none
split_last-none c [] h = refl
split_last-none c (x ∷ s) h = rw (split_last-none c s (ground (arith, h))) (ground (arith, h))

split_last-append :
    (c : ℕ) (before behind : Str)
    → has_none c behind ≡ true
    → split_last c (before ++ c ∷ behind) ≡ some (before, behind)
split_last-append c [] behind h = rw (split_last-none c behind h) (ground arith)
split_last-append c (x ∷ before) behind h = rw (split_last-append c before behind h) refl

infixl 20 ◌>>=◌
abbrev ◌>>=◌ : {A B : Type 0} → Option A → (A → Option B) → Option B
none >>= f = none
some a >>= f = f a

-- What a message tells: the text, the file and the line, which stand before the last parenthesis,
-- behind the last opening one with `at`, and behind the last colon.
abbrev pub read_place : Str → Option (Str × Str × Str)
read_place message = do
  (inside, end) ← split_last 41 message
  (front, line) ← split_last 58 inside
  (text, place) ← split_last 40 front
  (what, space) ← split_last 32 text
  some (what, drop 3 place, line)

-- A line without a colon, in a file without an opening parenthesis.
abbrev pub IsPlain : Location → Type 0
IsPlain loc = (has_none 58 loc.line ≡ true) × (has_none 40 loc.file ≡ true)

read_place-located :
    (what : Str) (loc : Location)
    → IsPlain loc
    → read_place (located what loc) ≡ some (what, loc.file, loc.line)
unfolding located
read_place-located what loc (no_colon, no_paren) =
    let file = loc.file in
    let line = loc.line in
    let outer : located what loc ≡ (what ++ (codes " (at " ++ (file ++ 58 ∷ line))) ++ 41 ∷ [] =
      simp (append_assoc) refl in
    let middle : what ++ (codes " (at " ++ (file ++ 58 ∷ line))
        ≡ (what ++ (codes " (at " ++ file)) ++ 58 ∷ line =
      simp (append_assoc) refl in
    let inner : what ++ (codes " (at " ++ file) ≡ (what ++ 32 ∷ []) ++ 40 ∷ (codes "at " ++ file) =
      simp (append_assoc) refl in
    rw
      (
        outer,
        split_last-append 41 (what ++ (codes " (at " ++ (file ++ 58 ∷ line))) [] refl,
        middle,
        split_last-append 58 (what ++ (codes " (at " ++ file)) line no_colon,
        inner,
        split_last-append 40 (what ++ 32 ∷ []) (codes "at " ++ file) no_paren,
        split_last-append 32 what [] refl,
      )
      refl

-- The texts, the files and the lines.
abbrev pub places : List (Str × Location) → List (Option (Str × Str × Str))
places [] = []
places ((what, loc) ∷ ws) = some (what, loc.file, loc.line) ∷ places ws

module _ (a : Anyhow) where
  open a use {Error, anyhow, context, chain, chain-anyhow, chain-context}

  unfoldable pub ctx : {A : Type 0} → Outcome A Error → Str → Location → Outcome A Error
  unfolding located
  ctx (success x) what loc = success x
  ctx (trouble cause) what loc = trouble (context (located what loc) cause)

  unfoldable pub failure : Str → Location → Error
  unfolding located
  failure what loc = anyhow (located what loc)

  -- The calls of `ctx` that an error passes on its way up, the outermost first.
  abbrev pub ctx_all : {A : Type 0} → List (Str × Location) → Outcome A Error → Outcome A Error
  ctx_all [] r = r
  ctx_all ((what, loc) ∷ ws) r = ctx (ctx_all ws r) what loc

  -- A success passes all contexts as it is. Let no file's name have an opening parenthesis, and no
  -- line a colon. A failure comes up as an error in whose chain a reader finds, at the end of each
  -- message, the text, the file and the line of each context, the outermost first, and those of the
  -- failure last.
  pub ctx_all-failure :
      {A : Type 0} (ws : List (Str × Location)) (x : A) (what : Str) (loc : Location)
      → Each (λ w. IsPlain w.1) ws
      → IsPlain loc
      → (ctx_all ws (success x) ≡ success x)
        × ((e : Error) × (ctx_all {A = A} ws (trouble (failure what loc)) ≡ trouble e)
            × (map read_place (chain e) ≡ places ((ws ++ (what, loc) ∷ []))))
  unfolding ctx failure
  ctx_all-failure [] x what loc hs h = (
    refl,
    (
      failure what loc,
      refl,
      ap (map read_place) (chain-anyhow (located what loc))
          ∙ ap (λ p. p ∷ []) (read_place-located what loc h),
    ),
  )
  ctx_all-failure ((w, l) ∷ ws) x what loc (k, hs) h =
      let (same, (e, up, told)) = ctx_all-failure ws x what loc hs h in
      (
        ap (λ r. ctx r w l) same,
        (
          context (located w l) e,
          ap (λ r. ctx r w l) up,
          ap (map read_place) (chain-context (located w l) e)
              ∙ ap (λ p. p ∷ map read_place (chain e)) (read_place-located w l k)
              ∙ ap (λ ps. some (w, l.file, l.line) ∷ ps) told,
        ),
      )
