-- ===== src/Db/Volume/Trees.antt =====
-- The names at and below a path, in the map that the database of src/db.rs stands for.
use pgfs.Prelude.{
  ◌≡◌, ◌∙◌, sym, ap, refl, Bool, true, false, Option, none, some, [], ◌∷◌, ◌++◌, append_nil, arith,
  Str, str_key, ◌==◌, Option-cases, inl, inr,
}
use pgfs.Dict.{get, remove}
use pgfs.Db.Like.Plain.{is_below}
use pgfs.Db.Names.Moved.Tail.{tail_of, tail_of-some, tail_of-append, append_cancel}
use pgfs.Db.Names.Rmdir.{is_some}
use pgfs.Db.Volume.{Volume, node, pair_key, has_below, has_tree, replaced, moved_tree}

same_flag : (a b : Bool) → (a ≡ true → b ≡ true) → (b ≡ true → a ≡ true) → a ≡ b
same_flag true b f g = sym (f refl)
same_flag false true f g = g refl
same_flag false false f g = refl

equals : (s t : Str) → (s == t) ≡ true → s ≡ t
equals s t = (str_key.same_iff s t).0

equal : (s t : Str) → s ≡ t → (s == t) ≡ true
equal s t = (str_key.same_iff s t).1

is_some-none : {A : Type 0} (o : Option A) → is_some o ≡ false → o ≡ none
is_some-none none h = refl
is_some-none (some a) h = absurd (ground (arith, h))

module _ (op np : Str) where
  -- A path at or below the new one comes from the old one.
  replaced-under :
      (a t x : Str)
      → tail_of np t ≡ some x
      → tail_of np a ≡ none
      → (replaced op np a == t) ≡ (a == op ++ x)
  replaced-under a t x e free =
      let (t_at, t_below) = tail_of-some np t x e in
      elim (Option-cases (tail_of op a)) [
        | inr (y, k) ↦
            let (a_at, a_below) = tail_of-some op a y k in
            rw (k, replaced)
              (same_flag (np ++ y == t) (a == op ++ x)
                (λ h.
                  equal _ _ (a_at ∙ ap (λ z. op ++ z) (append_cancel np y x (equals _ _ h ∙ t_at))))
                (λ h.
                  equal _ _ (
                    ap (λ z. np ++ z) (append_cancel op y x (sym a_at ∙ equals _ _ h)) ∙ sym t_at)))
        | inl k ↦
            rw (k, replaced)
              (same_flag (a == t) (a == op ++ x)
                (λ h. absurd (ground (arith, sym free ∙ ap (tail_of np) (equals a t h) ∙ e)))
                (λ h. absurd (
                  ground (
                    arith,
                    sym k ∙ ap (tail_of op) (equals a (op ++ x) h) ∙ tail_of-append op x t_below,
                  ))))
      ]

  replaced-gone :
      (a t y : Str) → tail_of np t ≡ none → tail_of op t ≡ some y → (replaced op np a == t) ≡ false
  replaced-gone a t y e g = elim (Option-cases (tail_of op a)) [
    | inr (x, k) ↦
        let (a_at, below) = tail_of-some op a x k in
        rw (k, replaced)
          (same_flag (np ++ x == t) false
            (λ h. absurd (
              ground (arith, sym (tail_of-append np x below) ∙ ap (tail_of np) (equals _ _ h) ∙ e)))
            (λ h. absurd (ground (arith, h))))
    | inl k ↦
        rw (k, replaced)
          (same_flag (a == t) false
            (λ h. absurd (ground (arith, sym k ∙ ap (tail_of op) (equals _ _ h) ∙ g)))
            (λ h. absurd (ground (arith, h))))
  ]

  replaced-beside :
      (a t : Str) → tail_of np t ≡ none → tail_of op t ≡ none → (replaced op np a == t) ≡ (a == t)
  replaced-beside a t e g = elim (Option-cases (tail_of op a)) [
    | inr (x, k) ↦
        let (a_at, below) = tail_of-some op a x k in
        rw (k, replaced)
          (same_flag (np ++ x == t) (a == t)
            (λ h. absurd (
              ground (arith, sym (tail_of-append np x below) ∙ ap (tail_of np) (equals _ _ h) ∙ e)))
            (λ h. absurd (ground (arith, sym k ∙ ap (tail_of op) (equals a t h) ∙ g))))
    | inl k ↦ rw (k, replaced) refl
  ]

  -- The names of a map after what is at or below the old path has moved to the new one, where there
  -- was nothing.
  pub node-moved_tree :
      (t u : Str) (v : Volume)
      → has_tree np v ≡ false
      → node t u (moved_tree op np v) ≡ (elim (tail_of np t) [
        | some x ↦ node (op ++ x) u v
        | none ↦ elim (tail_of op t) [ some _ ↦ none | none ↦ node t u v ]
      ])
  unfolding get has_tree moved_tree
  node-moved_tree t u [] h = elim (Option-cases (tail_of np t)) [
    | inr (x, e) ↦ rw (e) refl
    | inl e ↦ elim (Option-cases (tail_of op t)) [
      | inr (y, g) ↦ rw (e, g) refl
      | inl g ↦ rw (e, g) refl
    ]
  ]
  node-moved_tree t u (((a, b), y) ∷ v) h =
      let rest = node-moved_tree t u v (ground (arith, h)) in
      let free : tail_of np a ≡ none = is_some-none (tail_of np a) (ground (arith, h)) in
      elim (Option-cases (tail_of np t)) [
        | inr (x, e) ↦ rw (e, replaced-under a t x e free) (ground (arith, rest, e))
        | inl e ↦ elim (Option-cases (tail_of op t)) [
          | inr (z, g) ↦ rw (e, g, replaced-gone a t z e g) (ground (arith, rest, e, g))
          | inl g ↦ rw (e, g, replaced-beside a t e g) (ground (arith, rest, e, g))
        ]
      ]

pub not_tree-node :
    (path x u : Str) (v : Volume)
    → has_tree path v ≡ false
    → is_below x ≡ true
    → node (path ++ x) u v ≡ none
unfolding has_tree get
not_tree-node path x u [] h b = refl
not_tree-node path x u (((a, c), y) ∷ v) h b =
    let free : tail_of path a ≡ none = is_some-none (tail_of path a) (ground (arith, h)) in
    let apart : (a == path ++ x) ≡ false =
      same_flag (a == path ++ x) false
        (λ k. absurd (
          ground (
            arith,
            sym free ∙ ap (tail_of path) (equals a (path ++ x) k) ∙ tail_of-append path x b,
          )))
        (λ k. absurd (ground (arith, k))) in
    ground (arith, apart, not_tree-node path x u v (ground (arith, h)) b)

pub has_tree-remove :
    (path p n : Str) (v : Volume)
    → has_tree path v ≡ false
    → has_tree path (remove (p, n) v) ≡ false
unfolding has_tree remove
has_tree-remove path p n [] h = refl
has_tree-remove path p n (((a, c), y) ∷ v) h = ground (arith, h, has_tree-remove path p n v)

pub has_tree-has_below :
    (path : Str) (v : Volume) → has_tree path v ≡ false → has_below path v ≡ false
unfolding has_tree has_below
has_tree-has_below path [] h = refl
has_tree-has_below path (((a, c), y) ∷ v) h =
    let free : tail_of path a ≡ none = is_some-none (tail_of path a) (ground (arith, h)) in
    let apart : (a == path) ≡ false =
      same_flag (a == path) false
        (λ k. absurd (
          ground (
            arith,
            sym free
                ∙ ap (tail_of path) (equals a path k ∙ sym (append_nil path))
                ∙ tail_of-append path [] refl,
          )))
        (λ k. absurd (ground (arith, k))) in
    ground (arith, apart, has_tree-has_below path v (ground (arith, h)))
