-- ===== src/Inodes/Consistent.antt =====
-- The two inode maps stay consistent (src/fs.rs `ino_for`, `rekey_maps`, and the removals).
use pgfs.Prelude.{
  ℕ, ◌+◌, ◌<◌, ◌≡◌, ◌≢◌, refl, inl, inr, none, some, List, [], ◌∷◌, ◌++◌, codes, arith, Str,
  nat_key, str_key, str_beq_iff, Option-cases,
}
use pgfs.Dict.{get, put, remove, get-put, get-remove}
use pgfs.Inodes.{Inodes, init, ino_for, rekey, updates, rekey_all, rekey_maps, forget}

-- A path's inode number leads back to the path, and all numbers in use are below the next one.
pub record IsConsistent (t : Inodes) : Type 0 where
  pub back : (p : Str) (i : ℕ) → get p t.ino_by_path ≡ some i → get i t.path_by_ino ≡ some p
  pub below : (i : ℕ) (p : Str) → get i t.path_by_ino ≡ some p → i < t.next_ino

-- Different paths have different inode numbers.
pub IsConsistent-injective :
    (t : Inodes) (p q : Str) (i : ℕ)
    → IsConsistent t
    → get p t.ino_by_path ≡ some i
    → get q t.ino_by_path ≡ some i
    → p ≡ q
IsConsistent-injective t p q i c hp hq = cc (c.back p i hp, c.back q i hq)

pub IsConsistent-init : IsConsistent init
unfolding get
IsConsistent-init = record {
  back = λ p i h. ground (arith, str_beq_iff [] p);
  below = λ i p h. ground arith;
}

pub ino_for-IsConsistent : (p : Str) (t : Inodes) → IsConsistent t → IsConsistent (ino_for p t).1
unfolding ino_for
ino_for-IsConsistent p t c = elim (Option-cases (get p t.ino_by_path)) [
  | inr (i, e) ↦ rw (e, ino_for) c
  | inl e ↦
      rw (e, ino_for)
        (record {
          back = λ q i h. ground (
            arith,
            get-put p q t.next_ino t.ino_by_path,
            get-put t.next_ino i p t.path_by_ino,
            str_beq_iff p q,
            c.back q i,
            c.below i q,
          );
          below = λ i q h. ground (arith, get-put t.next_ino i p t.path_by_ino, c.below i q);
        })
]

pub forget-IsConsistent : (p : Str) (t : Inodes) → IsConsistent t → IsConsistent (forget p t)
unfolding forget
forget-IsConsistent p t c = elim (Option-cases (get p t.ino_by_path)) [
  | inl e ↦ rw (e, forget) c
  | inr (ino, e) ↦
      rw (e, forget)
        (record {
          back = λ q i h. ground (
            arith,
            get-remove p q t.ino_by_path,
            get-remove ino i t.path_by_ino,
            str_beq_iff p q,
            c.back q i,
            c.back p ino,
          );
          below = λ i q h. ground (arith, get-remove ino i t.path_by_ino, c.below i q);
        })
]

rekey-IsConsistent : (p q : Str) (t : Inodes) → IsConsistent t → IsConsistent (rekey p q t)
unfolding rekey
rekey-IsConsistent p q t c = elim (Option-cases (get p t.ino_by_path)) [
  | inl e ↦ rw (e, rekey) c
  | inr (ino, e) ↦
      rw (e, rekey)
        (record {
          back = λ r i h. ground (
            arith,
            get-put q r ino (remove p t.ino_by_path),
            get-remove p r t.ino_by_path,
            get-put ino i q t.path_by_ino,
            str_beq_iff q r,
            str_beq_iff p r,
            c.back r i,
            c.back p ino,
          );
          below = λ i r h.
              ground
                (arith, get-put ino i q t.path_by_ino, c.below i r, c.below ino p, c.back p ino);
        })
]

rekey_all-IsConsistent :
    (us : List (Str × Str)) (t : Inodes) → IsConsistent t → IsConsistent (rekey_all us t)
unfolding rekey_all
rekey_all-IsConsistent [] t c = c
rekey_all-IsConsistent ((p, q) ∷ us) t c =
    rekey_all-IsConsistent us (rekey p q t) (rekey-IsConsistent p q t c)

pub rekey_maps-IsConsistent :
    (p q : Str) (t : Inodes) → IsConsistent t → IsConsistent (rekey_maps p q t)
unfolding rekey_maps
rekey_maps-IsConsistent p q t c =
    rekey_all-IsConsistent (updates (p ++ codes "/") (q ++ codes "/") (rekey p q t).ino_by_path)
      (rekey p q t) (rekey-IsConsistent p q t c)

-- The answer `ino` of `ino_for` for `p`, with the maps `t'` after it.
pub record Answers (p : Str) (t : Inodes) (ino : ℕ) (t' : Inodes) : Type 0 where
  pub entered : get p t'.ino_by_path ≡ some ino
  pub leads_back : get ino t'.path_by_ino ≡ some p
  pub others : (q : Str) → q ≢ p → get q t'.ino_by_path ≡ get q t.ino_by_path
  pub again : ino_for p t' ≡ (ino, t')

abbrev pub allocated : Str → Inodes → Inodes
allocated p t = record {
  ino_by_path = put p t.next_ino t.ino_by_path;
  path_by_ino = put t.next_ino p t.path_by_ino;
  next_ino = t.next_ino + 1;
}

pub ino_for_known :
    (p : Str) (t : Inodes) (i : ℕ) → get p t.ino_by_path ≡ some i → ino_for p t ≡ (i, t)
unfolding ino_for
ino_for_known p t i e = rw (e, ino_for)

pub ino_for_new :
    (p : Str) (t : Inodes) → get p t.ino_by_path ≡ none → ino_for p t ≡ (t.next_ino, allocated p t)
unfolding ino_for
ino_for_new p t e = rw (e, ino_for)

-- In consistent maps `ino_for` enters its answer under the path and the path under its answer, leaves
-- the numbers of all other paths, and answers the same, with no further change, when asked again.
pub ino_for-Answers :
    (p : Str) (t : Inodes) → IsConsistent t → Answers p t (ino_for p t).0 (ino_for p t).1
ino_for-Answers p t c = elim (Option-cases (get p t.ino_by_path)) [
  | inr (i, e) ↦ rw (ino_for_known p t i e) (record {
    entered = e;
    leads_back = c.back p i e;
    others = λ q h. refl;
    again = ino_for_known p t i e;
  })
  | inl e ↦
      let found : get p (put p t.next_ino t.ino_by_path) ≡ some t.next_ino =
        ground (arith, get-put p p t.next_ino t.ino_by_path, str_beq_iff p p) in
      rw (ino_for_new p t e) (record {
        entered = found;
        leads_back = ground (arith, get-put t.next_ino t.next_ino p t.path_by_ino);
        others = λ q h. ground (arith, get-put p q t.next_ino t.ino_by_path, str_beq_iff p q);
        again = ino_for_known p (allocated p t) t.next_ino found;
      })
]
