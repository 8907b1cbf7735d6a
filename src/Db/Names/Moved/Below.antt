-- ===== src/Db/Names/Moved/Below.antt =====
-- The statement of `Db::rename` (src/db.rs) that moves the entries below a directory.
use pgfs.Prelude.{
  ◌^◌, ◌<◌, ◌≡◌, ◌∙◌, sym, ap, refl, Bool, true, false, ◌&&◌, Option, none, some, List, [], ◌∷◌,
  ◌++◌, arith, map, Str, str_key, ◌==◌, length, if◌then◌else◌, Option-cases, inl, inr,
}
use pgfs.Db.Rows.{EntryRow, find_entry, update_rows, same_entry}
use pgfs.Db.Like.{is_descendant, moved_parent}
use pgfs.Db.Like.Plain.{is_plain, is_below}
use pgfs.Db.Names.Moved.{any-find_entry, find_entry-append, Fits, update_rows_fitting, IsKeyed}
use pgfs.Db.Names.Moved.Tail.{tail_of, tail_of-some, tail_of-append, append_cancel, parent_cases}

-- Rows with another parent.
abbrev pub with_parent : Str → Option EntryRow → Option EntryRow
with_parent q none = none
with_parent q (some r) = some (record r { parent = q })

module _ (op np : Str) (plain : is_plain op ≡ true) (short : length op < 2 ^ 32) where
  abbrev pub set_parent : EntryRow → EntryRow
  set_parent r = record r { parent = moved_parent op np r.parent }

  abbrev pub is_hit : EntryRow → Bool
  is_hit r = is_descendant op r.parent

  abbrev pub below_moved : List EntryRow → List EntryRow
  below_moved rows = map (λ r. if is_hit r then set_parent r else r) rows

  descendants_fit :
      (done rows : List EntryRow)
      → IsKeyed rows
      → ((x u : Str) (e : EntryRow)
          → is_below x ≡ true
          → find_entry (op ++ x) u rows ≡ some e
          → find_entry (np ++ x) u done ≡ none)
      → ((x u : Str) → is_below x ≡ true → find_entry (np ++ x) u rows ≡ none)
      → Fits same_entry is_hit set_parent done rows
  unfolding find_entry
  descendants_fit done [] k d free = tt
  descendants_fit done (r ∷ rs) (k, ks) d free =
      let r' : EntryRow = if is_hit r then set_parent r else r in
      elim (parent_cases op np plain short r.parent) [
        | inl (x, at, below, hit, new) ↦
            let before : find_entry (np ++ x) r.name done ≡ none = d x r.name r below (
              ground
                (arith, str_key.same_iff r.parent (op ++ x), at, str_key.same_iff r.name r.name)) in
            let after : find_entry (np ++ x) r.name rs ≡ none =
              ground (arith, free x r.name below) in
            (
              ground (
                arith,
                any-find_entry (set_parent r) done
                    (ap (λ z. find_entry z r.name done) new ∙ before),
                any-find_entry (set_parent r) rs (ap (λ z. find_entry z r.name rs) new ∙ after),
              ),
              descendants_fit (done ++ r' ∷ []) rs ks
                  (λ y u e b h.
                    let other : (r.parent == op ++ y && r.name == u) ≡ false = ground (
                      arith,
                      k,
                      h,
                      str_key.same_iff r.parent (op ++ y),
                      str_key.same_iff r.name u,
                    ) in
                    find_entry-append (np ++ y) u done r' (d y u e b (ground (arith, other, h))) (
                      ground (
                        arith,
                        hit,
                        new,
                        at,
                        other,
                        append_cancel np x y,
                        str_key.same_iff (moved_parent op np r.parent) (np ++ y),
                        str_key.same_iff r.parent (op ++ y),
                        str_key.same_iff r.name u,
                      )))
                  (λ y u b. ground (arith, free y u b)),
            )
        | inr (miss, t) ↦ (
          ground (arith, miss),
          descendants_fit (done ++ r' ∷ []) rs ks
              (λ y u e b h.
                let other : (r.parent == op ++ y && r.name == u) ≡ false =
                  ground
                    (arith, k, h, str_key.same_iff r.parent (op ++ y), str_key.same_iff r.name u) in
                find_entry-append (np ++ y) u done r' (d y u e b (ground (arith, other, h)))
                  (ground (arith, miss, free y u b)))
              (λ y u b. ground (arith, free y u b)),
        )
      ]

  -- A path below the new one has the rows of the path below the old one.
  pub find_entry-below_moved :
      (x u : Str) (rows : List EntryRow)
      → is_below x ≡ true
      → find_entry (np ++ x) u rows ≡ none
      → find_entry (np ++ x) u (below_moved rows)
        ≡ with_parent (np ++ x) (find_entry (op ++ x) u rows)
  unfolding find_entry
  find_entry-below_moved x u [] b free = refl
  find_entry-below_moved x u (r ∷ rs) b free = elim (parent_cases op np plain short r.parent) [
    | inl (y, at, below, hit, new) ↦ ground (
      arith,
      hit,
      at,
      new,
      append_cancel np y x,
      append_cancel op y x,
      str_key.same_iff (moved_parent op np r.parent) (np ++ x),
      str_key.same_iff r.parent (op ++ x),
      str_key.same_iff r.name u,
      find_entry-below_moved x u rs b,
      free,
    )
    | inr (miss, t) ↦ ground (
      arith,
      miss,
      t,
      tail_of-append op x b,
      str_key.same_iff r.parent (op ++ x),
      find_entry-below_moved x u rs b,
      free,
    )
  ]

  -- The old path and those below it have no rows, and the rest is as before.
  pub find_entry-beside_moved :
      (t u : Str) (rows : List EntryRow)
      → tail_of np t ≡ none
      → find_entry t u (below_moved rows)
        ≡ (elim (tail_of op t) [ some _ ↦ none | none ↦ find_entry t u rows ])
  unfolding find_entry
  find_entry-beside_moved t u [] beside = elim (Option-cases (tail_of op t)) [
    | inl e ↦ rw (e) refl
    | inr (x, e) ↦ rw (e) refl
  ]
  find_entry-beside_moved t u (r ∷ rs) beside = elim (parent_cases op np plain short r.parent) [
    | inl (y, at, below, hit, new) ↦ ground (
      arith,
      hit,
      at,
      new,
      beside,
      tail_of-append np y below,
      tail_of-append op y below,
      str_key.same_iff (moved_parent op np r.parent) t,
      str_key.same_iff r.parent t,
      find_entry-beside_moved t u rs beside,
    )
    | inr (miss, none_) ↦
        ground
          (arith, miss, none_, str_key.same_iff r.parent t, find_entry-beside_moved t u rs beside)
  ]

  pub update_rows-below_moved :
      (rows : List EntryRow)
      → IsKeyed rows
      → ((x u : Str) → is_below x ≡ true → find_entry (np ++ x) u rows ≡ none)
      → update_rows same_entry is_hit set_parent [] rows ≡ some (below_moved rows)
  unfolding find_entry
  update_rows-below_moved rows k free =
      update_rows_fitting same_entry is_hit set_parent [] rows
        (descendants_fit [] rows k (λ x u e b h. refl) free)

  pub below_moved-IsKeyed :
      (rows : List EntryRow)
      → IsKeyed rows
      → ((x u : Str) → is_below x ≡ true → find_entry (np ++ x) u rows ≡ none)
      → IsKeyed (below_moved rows)
  unfolding find_entry
  below_moved-IsKeyed [] k free = tt
  below_moved-IsKeyed (r ∷ rs) (k, ks) free =
      let rest = below_moved-IsKeyed rs ks (λ y u b. ground (arith, free y u b)) in
      elim (parent_cases op np plain short r.parent) [
        | inl (x, at, below, hit, new) ↦ rw (hit) (
          ap (λ z. find_entry z r.name (below_moved rs)) new
              ∙ find_entry-below_moved x r.name rs below (ground (arith, free x r.name below))
              ∙ ap (with_parent (np ++ x)) (ap (λ z. find_entry z r.name rs) (sym at) ∙ k),
          rest,
        )
        | inr (miss, t) ↦
            let beside : tail_of np r.parent ≡ none = elim (Option-cases (tail_of np r.parent)) [
              | inl e ↦ e
              | inr (y, e) ↦
                  let (at, b) = tail_of-some np r.parent y e in
                  absurd (
                    ground (
                      arith,
                      at,
                      free y r.name b,
                      str_key.same_iff r.parent (np ++ y),
                      str_key.same_iff r.name r.name,
                    ))
            ] in
            rw (miss) (find_entry-beside_moved r.parent r.name rs beside ∙ rw (t) k, rest)
      ]
