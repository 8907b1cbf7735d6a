-- ===== src/Db/Names/Moved/Blocks.antt =====
-- The statement of `Db::rename` (src/db.rs) that gives the blocks of a file a new name.
use pgfs.Prelude.{
  ℕ, ◌≡◌, refl, false, ◌&&◌, none, some, List, [], ◌∷◌, ◌++◌, arith, map, Str, str_key, ◌==◌,
  nat_beq, if◌then◌else◌,
}
use pgfs.Block.{Bytes}
use pgfs.Db.Rows.{BlockRow, is_block_of, any, update_rows, same_block}
use pgfs.Db.Content.Stored.{stored, IsTable}
use pgfs.Db.Names.Moved.{Fits, update_rows_fitting}

pub any-stored :
    (r : BlockRow) (rows : List BlockRow)
    → stored r.parent r.name r.block_no rows ≡ none
    → any (same_block r) rows ≡ false
unfolding any
any-stored r [] h = refl
any-stored r (x ∷ xs) h = ground (
  arith,
  any-stored r xs,
  str_key.same_iff r.parent x.parent,
  str_key.same_iff r.name x.name,
  str_key.same_iff x.parent r.parent,
  str_key.same_iff x.name r.name,
)

pub stored-append :
    (p n : Str) (k : ℕ) (rows : List BlockRow) (r : BlockRow)
    → stored p n k rows ≡ none
    → (is_block_of p n r && nat_beq r.block_no k) ≡ false
    → stored p n k (rows ++ r ∷ []) ≡ none
stored-append p n k [] r h e = ground arith
stored-append p n k (x ∷ xs) r h e = ground (arith, stored-append p n k xs r)

module _ (p n q m : Str) where
  abbrev pub set_block : BlockRow → BlockRow
  set_block r = record r { parent = q; name = m }

  abbrev pub moved_blocks : List BlockRow → List BlockRow
  moved_blocks rows = map (λ r. if is_block_of p n r then set_block r else r) rows

  blocks_fit :
      (done rows : List BlockRow)
      → IsTable rows
      → ((k : ℕ) (b : Bytes) → stored p n k rows ≡ some b → stored q m k done ≡ none)
      → ((k : ℕ) → stored q m k rows ≡ none)
      → Fits same_block (is_block_of p n) set_block done rows
  blocks_fit done [] t d h = tt
  blocks_fit done (r ∷ rs) (key, small, t) d h = (
    ground (
      arith,
      any-stored (set_block r) done,
      any-stored (set_block r) rs,
      d r.block_no r.bytes,
      h r.block_no,
    ),
    blocks_fit (done ++ (if is_block_of p n r then set_block r else r) ∷ []) rs t
        (λ k b e. ground (
          arith,
          e,
          key,
          d k b,
          h k,
          stored-append q m k done (if is_block_of p n r then set_block r else r),
          str_key.same_iff r.parent p,
          str_key.same_iff r.name n,
        ))
        (λ k. ground (arith, h k)),
  )

  pub update_rows-moved_blocks :
      (rows : List BlockRow)
      → IsTable rows
      → ((k : ℕ) → stored q m k rows ≡ none)
      → update_rows same_block (is_block_of p n) set_block [] rows ≡ some (moved_blocks rows)
  update_rows-moved_blocks rows t h =
      update_rows_fitting same_block (is_block_of p n) set_block [] rows
        (blocks_fit [] rows t (λ k b e. refl) h)

  pub stored-moved_blocks :
      (t u : Str) (k : ℕ) (rows : List BlockRow)
      → stored q m k rows ≡ none
      → (p == q && n == m) ≡ false
      → stored t u k (moved_blocks rows) ≡ (
          if q == t && m == u
          then stored p n k rows
          else if p == t && n == u
          then none
          else stored t u k rows)
  stored-moved_blocks t u k [] h d = ground arith
  stored-moved_blocks t u k (r ∷ rs) h d = ground (
    arith,
    stored-moved_blocks t u k rs,
    str_key.same_iff r.parent p,
    str_key.same_iff r.name n,
    str_key.same_iff r.parent q,
    str_key.same_iff r.name m,
    str_key.same_iff r.parent t,
    str_key.same_iff r.name u,
    str_key.same_iff p q,
    str_key.same_iff n m,
    str_key.same_iff p t,
    str_key.same_iff n u,
    str_key.same_iff q t,
    str_key.same_iff m u,
  )
