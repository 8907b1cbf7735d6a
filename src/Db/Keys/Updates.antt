-- ===== src/Db/Keys/Updates.antt =====
-- Statements that change many rows at once (src/db.rs) do not break a primary key.
use mathlib.Core.Option.{some_inj}
use pgfs.Prelude.{
  ◌<◌, ◌≡◌, refl, ◌∙◌, Bool, false, ◌||◌, none, some, List, [], ◌∷◌, ◌++◌, append_assoc, append_nil,
  arith, Bool-cases, inl, inr, str_key, u32_mod, Each,
}
use pgfs.Db.Rows.{EntryRow, BlockRow, any, update_rows, find_entry, same_entry, same_block}
use pgfs.Db.Content.Stored.{stored, IsTable}
use pgfs.Db.Names.Moved.{IsKeyed, any-find_entry}

module _ {ℓ} {R : Type ℓ} (same : R → R → Bool) (symmetric : (r s : R) → same r s ≡ same s r) where
  -- No two rows have the same key.
  abbrev pub IsDistinct : List R → Type 0
  IsDistinct [] = Unit {0}
  IsDistinct (r ∷ rs) = (any (same r) rs ≡ false) × IsDistinct rs

  any-append : (p : R → Bool) (xs ys : List R) → any p (xs ++ ys) ≡ (any p xs || any p ys)
  unfolding any
  any-append p [] ys = refl
  any-append p (x ∷ xs) ys = ground (arith, any-append p xs ys)

  IsDistinct-exchange :
      (done rs : List R) (r x : R)
      → any (same x) done ≡ false
      → any (same x) rs ≡ false
      → IsDistinct (done ++ r ∷ rs)
      → IsDistinct (done ++ x ∷ rs)
  unfolding any
  IsDistinct-exchange [] rs r x before after (d, ds) = (after, ds)
  IsDistinct-exchange (y ∷ ys) rs r x before after (d, ds) = (
    ground (
      arith,
      d,
      any-append (same y) ys (r ∷ rs),
      any-append (same y) ys (x ∷ rs),
      symmetric x y,
      before,
    ),
    IsDistinct-exchange ys rs r x (ground (arith, before)) after ds,
  )

  module _ (hit : R → Bool) (set : R → R) where
    -- An update that the server accepts keeps the key.
    update_rows-IsDistinct :
        (done rows out : List R)
        → update_rows same hit set done rows ≡ some out
        → IsDistinct (done ++ rows)
        → IsDistinct out
    unfolding update_rows
    update_rows-IsDistinct done [] out e d =
        let same_rows : done ++ [] ≡ out = append_nil done ∙ some_inj.0 e in rw same_rows at d
    update_rows-IsDistinct done (r ∷ rs) out e d = elim (Bool-cases (hit r)) [
      | inl h ↦ update_rows-IsDistinct (done ++ set r ∷ []) rs out (ground (arith, e, h)) (
          rw (append_assoc done (set r ∷ []) rs)
            (IsDistinct-exchange done rs r (set r) (ground (arith, e, h)) (ground (arith, e, h)) d))
      | inr h ↦
          update_rows-IsDistinct (done ++ r ∷ []) rs out (ground (arith, e, h))
            (rw (append_assoc done (r ∷ []) rs) d)
    ]

    Each-exchange :
        (P : R → Type 0) (done rs : List R) (r x : R)
        → (P r → P x)
        → Each P (done ++ r ∷ rs)
        → Each P (done ++ x ∷ rs)
    Each-exchange P [] rs r x k (h, hs) = (k h, hs)
    Each-exchange P (y ∷ ys) rs r x k (h, hs) = (h, Each-exchange P ys rs r x k hs)

    -- Every row keeps what `set` keeps.
    pub update_rows-Each :
        (P : R → Type 0)
        → ((r : R) → P r → P (set r))
        → (done rows out : List R) → update_rows same hit set done rows ≡ some out
        → Each P (done ++ rows)
        → Each P out
    unfolding update_rows
    update_rows-Each P k done [] out e h =
        let same_rows : done ++ [] ≡ out = append_nil done ∙ some_inj.0 e in rw same_rows at h
    update_rows-Each P k done (r ∷ rs) out e h = elim (Bool-cases (hit r)) [
      | inl hits ↦
          update_rows-Each P k (done ++ set r ∷ []) rs out (ground (arith, e, hits))
            (rw (append_assoc done (set r ∷ []) rs) (Each-exchange P done rs r (set r) (k r) h))
      | inr misses ↦
          update_rows-Each P k (done ++ r ∷ []) rs out (ground (arith, e, misses))
            (rw (append_assoc done (r ∷ []) rs) h)
    ]

pub entry_symmetric : (r s : EntryRow) → same_entry r s ≡ same_entry s r
entry_symmetric r s = ground (
  arith,
  str_key.same_iff r.parent s.parent,
  str_key.same_iff s.parent r.parent,
  str_key.same_iff r.name s.name,
  str_key.same_iff s.name r.name,
)

block_symmetric : (r s : BlockRow) → same_block r s ≡ same_block s r
block_symmetric r s = ground (
  arith,
  str_key.same_iff r.parent s.parent,
  str_key.same_iff s.parent r.parent,
  str_key.same_iff r.name s.name,
  str_key.same_iff s.name r.name,
)

find_entry-any :
    (r : EntryRow) (rows : List EntryRow)
    → any (same_entry r) rows ≡ false
    → find_entry r.parent r.name rows ≡ none
unfolding any find_entry
find_entry-any r [] h = refl
find_entry-any r (x ∷ xs) h = ground (arith, entry_symmetric r x, find_entry-any r xs)

stored-any :
    (r : BlockRow) (rows : List BlockRow)
    → any (same_block r) rows ≡ false
    → stored r.parent r.name r.block_no rows ≡ none
unfolding any
stored-any r [] h = refl
stored-any r (x ∷ xs) h = ground (arith, block_symmetric r x, stored-any r xs)

any-stored :
    (r : BlockRow) (rows : List BlockRow)
    → stored r.parent r.name r.block_no rows ≡ none
    → any (same_block r) rows ≡ false
unfolding any
any-stored r [] h = refl
any-stored r (x ∷ xs) h = ground (arith, block_symmetric r x, any-stored r xs)

IsKeyed-IsDistinct :
    (rows : List EntryRow) → IsKeyed rows → IsDistinct same_entry entry_symmetric rows
IsKeyed-IsDistinct [] k = tt
IsKeyed-IsDistinct (r ∷ rs) (k, ks) = (any-find_entry r rs k, IsKeyed-IsDistinct rs ks)

IsDistinct-IsKeyed :
    (rows : List EntryRow) → IsDistinct same_entry entry_symmetric rows → IsKeyed rows
IsDistinct-IsKeyed [] d = tt
IsDistinct-IsKeyed (r ∷ rs) (d, ds) = (find_entry-any r rs d, IsDistinct-IsKeyed rs ds)

abbrev IsI32 : BlockRow → Type 0
IsI32 r = r.block_no < u32_mod

IsTable-IsDistinct :
    (rows : List BlockRow)
    → IsTable rows
    → IsDistinct same_block block_symmetric rows × Each IsI32 rows
IsTable-IsDistinct [] t = (tt, tt)
IsTable-IsDistinct (r ∷ rs) (k, small, t) =
    let (d, e) = IsTable-IsDistinct rs t in ((any-stored r rs k, d), (small, e))

IsDistinct-IsTable :
    (rows : List BlockRow)
    → IsDistinct same_block block_symmetric rows
    → Each IsI32 rows
    → IsTable rows
IsDistinct-IsTable [] d e = tt
IsDistinct-IsTable (r ∷ rs) (d, ds) (small, e) =
    (stored-any r rs d, small, IsDistinct-IsTable rs ds e)

-- An update of entries that the server accepts keeps their primary key.
pub update_rows-IsKeyed :
    (hit : EntryRow → Bool) (set : EntryRow → EntryRow) (rows out : List EntryRow)
    → update_rows same_entry hit set [] rows ≡ some out
    → IsKeyed rows
    → IsKeyed out
update_rows-IsKeyed hit set rows out e k = IsDistinct-IsKeyed out (
    update_rows-IsDistinct same_entry entry_symmetric hit set [] rows out e
      (IsKeyed-IsDistinct rows k))

-- And an update of blocks that leaves their numbers.
pub update_rows-IsTable :
    (hit : BlockRow → Bool) (set : BlockRow → BlockRow)
    → ((r : BlockRow) → (set r).block_no ≡ r.block_no)
    → (rows out : List BlockRow) → update_rows same_block hit set [] rows ≡ some out
    → IsTable rows
    → IsTable out
update_rows-IsTable hit set same_no rows out e t =
    let (d, i) = IsTable-IsDistinct rows t in
    IsDistinct-IsTable out
      (update_rows-IsDistinct same_block block_symmetric hit set [] rows out e d)
      (update_rows-Each same_block block_symmetric hit set IsI32
        (λ r small. omega (arith, same_no r)) [] rows out e i)
