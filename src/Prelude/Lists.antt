-- ===== src/Prelude/Lists.antt =====
-- Lists measured and indexed by native numbers, under the library's names, and Rust's operations on
-- vectors: `resize`, `truncate`, `copy_from_slice` and the slice `v[a..b]`.
use Prim.Native.Nat.{ℕ, zero, suc, ◌+◌, ◌-◌, ◌≤◌, ◌<◌}
use mathlib.Core.Path.{◌≡◌, refl, ap}
use mathlib.Core.Bool.{Bool, ◌&&◌}
use mathlib.Core.List.{List, [], ◌∷◌, ◌++◌}
use mathlib.Core.Option.{Option, none, some}
use native.Mathlib.Omega.{arith}
use pgfs.Prelude.Tests.{ltb, leb, if◌then◌else◌}

module _ {ℓ} {A : Type ℓ} where
  abbrev pub length : List A → ℕ
  length [] = 0
  length (x ∷ xs) = suc (length xs)

  abbrev pub get_elem? : List A → ℕ → Option A
  get_elem? [] i = none
  get_elem? (x ∷ xs) zero = some x
  get_elem? (x ∷ xs) (suc i) = get_elem? xs i

  abbrev pub get_or : List A → ℕ → A → A
  get_or [] i d = d
  get_or (x ∷ xs) zero d = x
  get_or (x ∷ xs) (suc i) d = get_or xs i d

  abbrev pub take : ℕ → List A → List A
  take zero xs = []
  take (suc n) [] = []
  take (suc n) (x ∷ xs) = x ∷ take n xs

  abbrev pub drop : ℕ → List A → List A
  drop zero xs = xs
  drop (suc n) [] = []
  drop (suc n) (x ∷ xs) = drop n xs

  abbrev pub replicate : ℕ → A → List A
  replicate zero a = []
  replicate (suc n) a = a ∷ replicate n a

  abbrev pub filterb : (A → Bool) → List A → List A
  filterb p [] = []
  filterb p (x ∷ xs) = let rest = filterb p xs in if p x then x ∷ rest else rest

  -- `Vec::resize`.
  unfoldable pub resize : List A → ℕ → A → List A
  resize xs zero v = []
  resize [] (suc n) v = v ∷ resize [] n v
  resize (x ∷ xs) (suc n) v = x ∷ resize xs n v

  -- `v[k..k + c.len()].copy_from_slice(c)`, for a range within `v`.
  unfoldable pub copy_at : List A → ℕ → List A → List A
  copy_at [] k c = []
  copy_at (x ∷ xs) (suc k) c = x ∷ copy_at xs k c
  copy_at (x ∷ xs) zero [] = x ∷ xs
  copy_at (x ∷ xs) zero (c ∷ cs) = c ∷ copy_at xs zero cs

  -- The slice `v[a..b]`; `none` is the panic on a range outside of `v`.
  unfoldable pub slice? : List A → ℕ → ℕ → Option (List A)
  slice? xs a b = if leb a b && leb b (length xs) then some (take (b - a) (drop a xs)) else none

  pub append_nil : (xs : List A) → xs ++ [] ≡ xs
  append_nil [] = refl
  append_nil (x ∷ xs) = ap (λ t. x ∷ t) (append_nil xs)

  pub append_assoc : (xs ys zs : List A) → (xs ++ ys) ++ zs ≡ xs ++ (ys ++ zs)
  append_assoc [] ys zs = refl
  append_assoc (x ∷ xs) ys zs = ap (λ t. x ∷ t) (append_assoc xs ys zs)

  pub length-append : (xs ys : List A) → length (xs ++ ys) ≡ length xs + length ys
  length-append [] ys = omega arith
  length-append (x ∷ xs) ys = omega (arith, length-append xs ys)

  pub length-replicate : (n : ℕ) (a : A) → length (replicate n a) ≡ n
  length-replicate zero a = refl
  length-replicate (suc n) a = omega (arith, length-replicate n a)

  pub length-resize : (xs : List A) (n : ℕ) (v : A) → length (resize xs n v) ≡ n
  unfolding resize
  length-resize xs zero v = refl
  length-resize [] (suc n) v = omega (arith, length-resize [] n v)
  length-resize (x ∷ xs) (suc n) v = omega (arith, length-resize xs n v)

  pub length-copy_at : (xs : List A) (k : ℕ) (c : List A) → length (copy_at xs k c) ≡ length xs
  unfolding copy_at
  length-copy_at [] k c = refl
  length-copy_at (x ∷ xs) (suc k) c = omega (arith, length-copy_at xs k c)
  length-copy_at (x ∷ xs) zero [] = refl
  length-copy_at (x ∷ xs) zero (c ∷ cs) = omega (arith, length-copy_at xs zero cs)

  pub length-drop : (n : ℕ) (xs : List A) → length (drop n xs) ≡ length xs - n
  length-drop zero xs = omega arith
  length-drop (suc n) [] = omega arith
  length-drop (suc n) (x ∷ xs) = omega (arith, length-drop n xs)

  pub length-take_le : (n : ℕ) (xs : List A) → n ≤ length xs → length (take n xs) ≡ n
  length-take_le zero xs h = refl
  length-take_le (suc n) [] h = absurd (omega arith)
  length-take_le (suc n) (x ∷ xs) h = omega (arith, length-take_le n xs)

module _ {A : Type 0} (d : A) where
  pub get_or-past : (xs : List A) (i : ℕ) → length xs ≤ i → get_or xs i d ≡ d
  get_or-past [] i h = refl
  get_or-past (x ∷ xs) zero h = absurd (omega arith)
  get_or-past (x ∷ xs) (suc i) h = get_or-past xs i (omega arith)

  pub get_or-resize :
      (xs : List A) (n i : ℕ) → get_or (resize xs n d) i d ≡ (if ltb i n then get_or xs i d else d)
  unfolding resize
  get_or-resize xs zero i = ground arith
  get_or-resize [] (suc n) zero = ground arith
  get_or-resize [] (suc n) (suc i) = ground (arith, get_or-resize [] n i)
  get_or-resize (x ∷ xs) (suc n) zero = ground arith
  get_or-resize (x ∷ xs) (suc n) (suc i) = ground (arith, get_or-resize xs n i)

  pub get_or-copy_at :
      (xs : List A) (k : ℕ) (c : List A) (i : ℕ)
      → k + length c ≤ length xs
      → get_or (copy_at xs k c) i d
        ≡ (if leb k i && ltb i (k + length c) then get_or c (i - k) d else get_or xs i d)
  unfolding copy_at
  get_or-copy_at [] k c i h = ground arith
  get_or-copy_at (x ∷ xs) (suc k) c zero h = ground arith
  get_or-copy_at (x ∷ xs) (suc k) c (suc i) h = ground (arith, get_or-copy_at xs k c i)
  get_or-copy_at (x ∷ xs) zero [] i h = ground arith
  get_or-copy_at (x ∷ xs) zero (c ∷ cs) zero h = ground arith
  get_or-copy_at (x ∷ xs) zero (c ∷ cs) (suc i) h = ground (arith, get_or-copy_at xs zero cs i)

  pub get_or-take : (n : ℕ) (xs : List A) (i : ℕ) → i < n → get_or (take n xs) i d ≡ get_or xs i d
  get_or-take zero xs i h = absurd (omega arith)
  get_or-take (suc n) [] i h = refl
  get_or-take (suc n) (x ∷ xs) zero h = refl
  get_or-take (suc n) (x ∷ xs) (suc i) h = get_or-take n xs i (omega arith)

  pub get_or-drop : (n : ℕ) (xs : List A) (i : ℕ) → get_or (drop n xs) i d ≡ get_or xs (n + i) d
  get_or-drop zero xs i = ground arith
  get_or-drop (suc n) [] i = refl
  get_or-drop (suc n) (x ∷ xs) i = ground (arith, get_or-drop n xs i)

  pub get_or-append :
      (xs ys : List A) (i : ℕ)
      → get_or (xs ++ ys) i d
        ≡ (if ltb i (length xs) then get_or xs i d else get_or ys (i - length xs) d)
  get_or-append [] ys i = ground arith
  get_or-append (x ∷ xs) ys zero = ground arith
  get_or-append (x ∷ xs) ys (suc i) = ground (arith, get_or-append xs ys i)

  pub get_or-replicate : (n i : ℕ) → get_or (replicate n d) i d ≡ d
  get_or-replicate zero i = refl
  get_or-replicate (suc n) zero = refl
  get_or-replicate (suc n) (suc i) = get_or-replicate n i

  -- The same at every index.
  pub get_or-take_if :
      (n : ℕ) (xs : List A) (i : ℕ)
      → get_or (take n xs) i d ≡ (if ltb i n then get_or xs i d else d)
  get_or-take_if zero xs i = ground arith
  get_or-take_if (suc n) [] i = ground arith
  get_or-take_if (suc n) (x ∷ xs) zero = ground arith
  get_or-take_if (suc n) (x ∷ xs) (suc i) = ground (arith, get_or-take_if n xs i)
