-- ===== src/Fs/Handles.antt =====
-- The tables of open handles (src/fs.rs `open_handles`, `open_handles_by_ino`, `next_fh`).
use pgfs.Prelude.{
  ℕ, ◌+◌, ◌<◌, ◌≡◌, Bool, some, [], ◌∷◌, arith, nat_key, nat_beq, filterb, Bool-cases, inl, inr,
}
use pgfs.Dict.{Dict, get, put, remove, get-put, get-remove}
use pgfs.Handle.{HandleBuffer}

-- Each value is the number of a handle that was given out.
abbrev pub Given : ℕ → Dict ℕ ℕ → Type 0
Given n [] = Unit {0}
Given n ((i, fh) ∷ m) = (0 < fh) × (fh < n) × Given n m

Given-suc : (n : ℕ) (m : Dict ℕ ℕ) → Given n m → Given (n + 1) m
Given-suc n [] g = tt
Given-suc n ((i, fh) ∷ m) (pos, low, g) = (pos, omega arith, Given-suc n m g)

Given-put : (n i fh : ℕ) (m : Dict ℕ ℕ) → 0 < fh → fh < n → Given n m → Given n (put i fh m)
unfolding put
Given-put n i fh [] pos low g = (pos, low, tt)
Given-put n i fh ((j, gh) ∷ m) pos low (p, l, g) = elim (Bool-cases (nat_beq j i)) [
  | inl e ↦ rw (e) (pos, low, g)
  | inr e ↦ rw (e) (p, l, Given-put n i fh m pos low g)
]

Given-filterb : (n : ℕ) (keep : ℕ × ℕ → Bool) (m : Dict ℕ ℕ) → Given n m → Given n (filterb keep m)
Given-filterb n keep [] g = tt
Given-filterb n keep ((i, fh) ∷ m) (p, l, g) = elim (Bool-cases (keep (i, fh))) [
  | inl e ↦ rw (e) (p, l, Given-filterb n keep m g)
  | inr e ↦ rw (e) (Given-filterb n keep m g)
]

pub Given-get : (n i fh : ℕ) (m : Dict ℕ ℕ) → Given n m → get i m ≡ some fh → (0 < fh) × (fh < n)
unfolding get
Given-get n i fh [] g h = absurd (cc)
Given-get n i fh ((j, gh) ∷ m) (p, l, g) h = ground (arith, p, l, h, Given-get n i fh m g)

-- The open handles have numbers that were given out, none of which is 0, and so have the inodes'.
pub record HasHandles (n : ℕ) (handles : Dict ℕ HandleBuffer) (by_ino : Dict ℕ ℕ) : Type 0 where
  pub positive : 0 < n
  pub handle : (fh : ℕ) (h : HandleBuffer) → get fh handles ≡ some h → (0 < fh) × (fh < n)
  pub given : Given n by_ino

module _ (n : ℕ) (handles : Dict ℕ HandleBuffer) (by_ino : Dict ℕ ℕ)
    (s : HasHandles n handles by_ino) where
  pub put-HasHandles :
      (fh : ℕ) (h : HandleBuffer) → 0 < fh → fh < n → HasHandles n (put fh h handles) by_ino
  put-HasHandles fh h pos low = record {
    positive = s.positive;
    handle = λ gh g e. ground (arith, get-put fh gh h handles, s.handle gh g, e);
    given = s.given;
  }

  pub remove-HasHandles : (fh : ℕ) → HasHandles n (remove fh handles) by_ino
  remove-HasHandles fh = record {
    positive = s.positive;
    handle = λ gh g e. ground (arith, get-remove fh gh handles, s.handle gh g, e);
    given = s.given;
  }

  -- A new handle gets the next number.
  pub next-HasHandles : (h : HandleBuffer) → HasHandles (n + 1) (put n h handles) by_ino
  next-HasHandles h = record {
    positive = omega arith;
    handle = λ gh g e. ground (arith, get-put n gh h handles, s.handle gh g, e, s.positive);
    given = Given-suc n by_ino s.given;
  }

  pub put_ino-HasHandles : (i fh : ℕ) → 0 < fh → fh < n → HasHandles n handles (put i fh by_ino)
  put_ino-HasHandles i fh pos low = record {
    positive = s.positive;
    handle = s.handle;
    given = Given-put n i fh by_ino pos low s.given;
  }

  pub filterb-HasHandles : (keep : ℕ × ℕ → Bool) → HasHandles n handles (filterb keep by_ino)
  filterb-HasHandles keep = record {
    positive = s.positive;
    handle = s.handle;
    given = Given-filterb n keep by_ino s.given;
  }

pub HasHandles-none : HasHandles 1 [] []
unfolding get
HasHandles-none = record { positive = omega arith; handle = λ fh h e. absurd (cc); given = tt }
