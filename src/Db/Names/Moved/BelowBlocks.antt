-- ===== src/Db/Names/Moved/BelowBlocks.antt =====
-- The statement of `Db::rename` (src/db.rs) that moves the blocks below a directory.
use pgfs.Prelude.{
  ℕ, ◌^◌, ◌<◌, ◌≡◌, ◌∙◌, sym, ap, refl, Bool, true, false, ◌&&◌, none, some, List, [], ◌∷◌, ◌++◌,
  arith, map, Str, str_key, ◌==◌, nat_beq, length, if◌then◌else◌, Option-cases, inl, inr,
}
use pgfs.Db.Rows.{BlockRow, update_rows, same_block}
use pgfs.Db.Like.{is_descendant, moved_parent}
use pgfs.Db.Like.Plain.{is_plain, is_below}
use pgfs.Db.Names.Moved.Blocks.{any-stored, stored-append}
use pgfs.Db.Names.Moved.{Fits, update_rows_fitting}
use pgfs.Block.{Bytes}
use pgfs.Db.Content.Stored.{stored, IsTable}
use pgfs.Db.Names.Moved.Tail.{tail_of, tail_of-some, tail_of-append, append_cancel, parent_cases}

module _ (op np : Str) (plain : is_plain op ≡ true) (short : length op < 2 ^ 32) where
  abbrev pub set_parent : BlockRow → BlockRow
  set_parent r = record r { parent = moved_parent op np r.parent }

  abbrev pub is_hit : BlockRow → Bool
  is_hit r = is_descendant op r.parent

  abbrev pub below_moved : List BlockRow → List BlockRow
  below_moved rows = map (λ r. if is_hit r then set_parent r else r) rows

  descendants_fit :
      (done rows : List BlockRow)
      → IsTable rows
      → ((x u : Str) (j : ℕ) (e : Bytes)
          → is_below x ≡ true
          → stored (op ++ x) u j rows ≡ some e
          → stored (np ++ x) u j done ≡ none)
      → ((x u : Str) (j : ℕ) → is_below x ≡ true → stored (np ++ x) u j rows ≡ none)
      → Fits same_block is_hit set_parent done rows
  descendants_fit done [] k d free = tt
  descendants_fit done (r ∷ rs) (k, small, ks) d free =
      let r' : BlockRow = if is_hit r then set_parent r else r in
      elim (parent_cases op np plain short r.parent) [
        | inl (x, at, below, hit, new) ↦
            let before : stored (np ++ x) r.name r.block_no done ≡ none =
              d x r.name r.block_no r.bytes below (
                ground (
                  arith,
                  str_key.same_iff r.parent (op ++ x),
                  at,
                  str_key.same_iff r.name r.name,
                )) in
            let after : stored (np ++ x) r.name r.block_no rs ≡ none =
              ground (arith, free x r.name r.block_no below) in
            (
              ground (
                arith,
                any-stored (set_parent r) done
                    (ap (λ z. stored z r.name r.block_no done) new ∙ before),
                any-stored (set_parent r) rs (ap (λ z. stored z r.name r.block_no rs) new ∙ after),
              ),
              descendants_fit (done ++ r' ∷ []) rs ks
                  (λ y u j e b h.
                    let other : ((r.parent == op ++ y && r.name == u) && nat_beq r.block_no j)
                        ≡ false =
                      ground (
                        arith,
                        k,
                        h,
                        str_key.same_iff r.parent (op ++ y),
                        str_key.same_iff r.name u,
                      ) in
                    stored-append (np ++ y) u j done r' (d y u j e b (ground (arith, other, h))) (
                      ground (
                        arith,
                        hit,
                        new,
                        at,
                        other,
                        append_cancel np x y,
                        str_key.same_iff (moved_parent op np r.parent) (np ++ y),
                        str_key.same_iff r.parent (op ++ y),
                        str_key.same_iff r.name u,
                      )))
                  (λ y u j b. ground (arith, free y u j b)),
            )
        | inr (miss, t) ↦ (
          ground (arith, miss),
          descendants_fit (done ++ r' ∷ []) rs ks
              (λ y u j e b h.
                let other : ((r.parent == op ++ y && r.name == u) && nat_beq r.block_no j) ≡ false =
                  ground
                    (arith, k, h, str_key.same_iff r.parent (op ++ y), str_key.same_iff r.name u) in
                stored-append (np ++ y) u j done r' (d y u j e b (ground (arith, other, h)))
                  (ground (arith, miss, free y u j b)))
              (λ y u j b. ground (arith, free y u j b)),
        )
      ]

  -- A path below the new one has the rows of the path below the old one.
  pub stored-below_moved :
      (x u : Str) (j : ℕ) (rows : List BlockRow)
      → is_below x ≡ true
      → stored (np ++ x) u j rows ≡ none
      → stored (np ++ x) u j (below_moved rows) ≡ stored (op ++ x) u j rows
  stored-below_moved x u j [] b free = refl
  stored-below_moved x u j (r ∷ rs) b free = elim (parent_cases op np plain short r.parent) [
    | inl (y, at, below, hit, new) ↦ ground (
      arith,
      hit,
      at,
      new,
      append_cancel np y x,
      append_cancel op y x,
      str_key.same_iff (moved_parent op np r.parent) (np ++ x),
      str_key.same_iff r.parent (op ++ x),
      str_key.same_iff r.name u,
      stored-below_moved x u j rs b,
      free,
    )
    | inr (miss, t) ↦ ground (
      arith,
      miss,
      t,
      tail_of-append op x b,
      str_key.same_iff r.parent (op ++ x),
      stored-below_moved x u j rs b,
      free,
    )
  ]

  -- The old path and those below it have no rows, and the rest is as before.
  pub stored-beside_moved :
      (t u : Str) (j : ℕ) (rows : List BlockRow)
      → tail_of np t ≡ none
      → stored t u j (below_moved rows)
        ≡ (elim (tail_of op t) [ some _ ↦ none | none ↦ stored t u j rows ])
  stored-beside_moved t u j [] beside = elim (Option-cases (tail_of op t)) [
    | inl e ↦ rw (e) refl
    | inr (x, e) ↦ rw (e) refl
  ]
  stored-beside_moved t u j (r ∷ rs) beside = elim (parent_cases op np plain short r.parent) [
    | inl (y, at, below, hit, new) ↦ ground (
      arith,
      hit,
      at,
      new,
      beside,
      tail_of-append np y below,
      tail_of-append op y below,
      str_key.same_iff (moved_parent op np r.parent) t,
      str_key.same_iff r.parent t,
      stored-beside_moved t u j rs beside,
    )
    | inr (miss, none_) ↦
        ground
          (arith, miss, none_, str_key.same_iff r.parent t, stored-beside_moved t u j rs beside)
  ]

  pub update_rows-below_moved :
      (rows : List BlockRow)
      → IsTable rows
      → ((x u : Str) (j : ℕ) → is_below x ≡ true → stored (np ++ x) u j rows ≡ none)
      → update_rows same_block is_hit set_parent [] rows ≡ some (below_moved rows)
  update_rows-below_moved rows k free =
      update_rows_fitting same_block is_hit set_parent [] rows
        (descendants_fit [] rows k (λ x u j e b h. refl) free)

  pub below_moved-IsTable :
      (rows : List BlockRow)
      → IsTable rows
      → ((x u : Str) (j : ℕ) → is_below x ≡ true → stored (np ++ x) u j rows ≡ none)
      → IsTable (below_moved rows)
  below_moved-IsTable [] k free = tt
  below_moved-IsTable (r ∷ rs) (k, small, ks) free =
      let rest = below_moved-IsTable rs ks (λ y u j b. ground (arith, free y u j b)) in
      elim (parent_cases op np plain short r.parent) [
        | inl (x, at, below, hit, new) ↦ rw (hit) (
          ap (λ z. stored z r.name r.block_no (below_moved rs)) new
              ∙ stored-below_moved x r.name r.block_no rs below
                  (ground (arith, free x r.name r.block_no below))
              ∙ ap (λ z. stored z r.name r.block_no rs) (sym at)
              ∙ k,
          small,
          rest,
        )
        | inr (miss, t) ↦
            let beside : tail_of np r.parent ≡ none = elim (Option-cases (tail_of np r.parent)) [
              | inl e ↦ e
              | inr (y, e) ↦
                  let (at, b) = tail_of-some np r.parent y e in
                  absurd (
                    ground (
                      arith,
                      at,
                      free y r.name r.block_no b,
                      str_key.same_iff r.parent (np ++ y),
                      str_key.same_iff r.name r.name,
                    ))
            ] in
            rw (miss)
              (stored-beside_moved r.parent r.name r.block_no rs beside ∙ rw (t) k, small, rest)
      ]
