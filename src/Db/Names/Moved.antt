-- ===== src/Db/Names/Moved.antt =====
-- The statements of `Db::rename` (src/db.rs) that give rows a new name.
pub mod Tail
pub mod Below
pub mod BelowBlocks
pub mod Blocks
use pgfs.Prelude.{
  append_nil, append_assoc, ℕ, ◌≡◌, ◌∙◌, sym, ap, refl, Bool, true, false, ◌&&◌, ◌||◌, Option, none,
  some, List, [], ◌∷◌, ◌++◌, arith, map, Str, str_key, ◌==◌, nat_beq, if◌then◌else◌, Bool-cases,
  inl, inr,
}
use pgfs.Block.{Bytes}
use pgfs.Db.Rows.{
  EntryRow, BlockRow, is_entry, is_block_of, find_entry, any, update_rows, same_entry, same_block,
}
use pgfs.Db.Content.Stored.{stored, IsTable}

-- The primary key of the table `entries`.
abbrev pub IsKeyed : List EntryRow → Type 0
IsKeyed [] = Unit {0}
IsKeyed (r ∷ rs) = (find_entry r.parent r.name rs ≡ none) × IsKeyed rs

module _ {ℓ} {R : Type ℓ} (same : R → R → Bool) (hit : R → Bool) (set : R → R) where
  abbrev pub updated : R → R
  updated r = if hit r then set r else r

  -- No row collides with those before it, as they are then, or with those after it.
  abbrev pub Fits : List R → List R → Type 0
  Fits done [] = Unit {0}
  Fits done (r ∷ rs) =
      ((hit r && (any (same (set r)) done || any (same (set r)) rs)) ≡ false)
      × Fits (done ++ updated r ∷ []) rs

  pub update_rows_fitting :
      (done rows : List R)
      → Fits done rows
      → update_rows same hit set done rows ≡ some (done ++ map updated rows)
  unfolding update_rows
  update_rows_fitting done [] f = ap some (sym (append_nil done))
  update_rows_fitting done (r ∷ rs) (f, fs) = rw (f) (
      update_rows_fitting (done ++ updated r ∷ []) rs fs
      ∙ ap some (append_assoc done (updated r ∷ []) (map updated rs)))

pub any-find_entry :
    (r : EntryRow) (rows : List EntryRow)
    → find_entry r.parent r.name rows ≡ none
    → any (same_entry r) rows ≡ false
unfolding any find_entry
any-find_entry r [] h = refl
any-find_entry r (x ∷ xs) h = ground (
  arith,
  any-find_entry r xs,
  str_key.same_iff r.parent x.parent,
  str_key.same_iff r.name x.name,
  str_key.same_iff x.parent r.parent,
  str_key.same_iff x.name r.name,
)

pub find_entry-append :
    (p n : Str) (rows : List EntryRow) (r : EntryRow)
    → find_entry p n rows ≡ none
    → is_entry p n r ≡ false
    → find_entry p n (rows ++ r ∷ []) ≡ none
unfolding find_entry
find_entry-append p n [] r h e = ground arith
find_entry-append p n (x ∷ xs) r h e = ground (arith, find_entry-append p n xs r)

-- Rows of the name `p`, `n` become rows of the name `q`, `m`.
module _ (p n q m : Str) where
  module _ (now : ℕ) where
    abbrev pub set_entry : EntryRow → EntryRow
    set_entry r = record r { parent = q; name = m; mtime = now }

    abbrev pub moved_entries : List EntryRow → List EntryRow
    moved_entries rows = map (λ r. if is_entry p n r then set_entry r else r) rows

    abbrev pub moved_entry : Option EntryRow → Option EntryRow
    moved_entry none = none
    moved_entry (some r) = some (set_entry r)

    entries_fit :
        (done rows : List EntryRow)
        → IsKeyed rows
        → ((x : EntryRow) → find_entry p n rows ≡ some x → find_entry q m done ≡ none)
        → find_entry q m rows ≡ none
        → Fits same_entry (is_entry p n) set_entry done rows
    unfolding find_entry
    entries_fit done [] k d h = tt
    entries_fit done (r ∷ rs) (k, ks) d h = (
      ground (arith, any-find_entry (set_entry r) done, any-find_entry (set_entry r) rs, d r),
      entries_fit (done ++ (if is_entry p n r then set_entry r else r) ∷ []) rs ks
          (λ x e. ground (
            arith,
            e,
            k,
            d x,
            h,
            find_entry-append q m done (if is_entry p n r then set_entry r else r),
            str_key.same_iff r.parent p,
            str_key.same_iff r.name n,
          ))
          (ground (arith, h)),
    )

    pub update_rows-moved_entries :
        (rows : List EntryRow)
        → IsKeyed rows
        → find_entry q m rows ≡ none
        → update_rows same_entry (is_entry p n) set_entry [] rows ≡ some (moved_entries rows)
    unfolding find_entry
    update_rows-moved_entries rows k h =
        update_rows_fitting same_entry (is_entry p n) set_entry [] rows
          (entries_fit [] rows k (λ x e. refl) h)

    pub find_entry-moved_entries :
        (t u : Str) (rows : List EntryRow)
        → find_entry q m rows ≡ none
        → (p == q && n == m) ≡ false
        → find_entry t u (moved_entries rows) ≡ (
            if q == t && m == u
            then moved_entry (find_entry p n rows)
            else if p == t && n == u
            then none
            else find_entry t u rows)
    unfolding find_entry
    find_entry-moved_entries t u [] h d = ground arith
    find_entry-moved_entries t u (r ∷ rs) h d = ground (
      arith,
      find_entry-moved_entries t u rs,
      str_key.same_iff r.parent p,
      str_key.same_iff r.name n,
      str_key.same_iff r.parent q,
      str_key.same_iff r.name m,
      str_key.same_iff r.parent t,
      str_key.same_iff r.name u,
      str_key.same_iff p q,
      str_key.same_iff n m,
      str_key.same_iff p t,
      str_key.same_iff n u,
      str_key.same_iff q t,
      str_key.same_iff m u,
    )
