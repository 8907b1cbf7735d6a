-- ===== src/Db/Volume/Contents.antt =====
-- `write_range`, `truncate` and `write` of src/db.rs on a database that holds a map, where no statement fails.
use pgfs.Prelude.{
  ℕ, ◌+◌, ◌^◌, ◌≤◌, ◌<◌, ◌≡◌, ◌∙◌, refl, ap, arith, [], ◌∷◌, ◌++◌, zero, suc, ◌-◌, drop, replicate,
  append_nil, Option, none, some, Str, str_key, length,
}
use pgfs.Dict.{get-put, put}
use pgfs.Block.{Bytes}
use pgfs.Db.Rows.{ok}
use pgfs.Db.Exec.{Db, Exec, pure, ◌>>=◌}
use pgfs.Db.Content.{write_range, truncate, write}
use pgfs.Db.Content.Whole.{calm, bind_ok, write_range-Wrote}
use pgfs.Db.Content.Truncate.{truncate-Truncated}
use pgfs.Db.Content.File.{Wrote-Holds, Truncated-Holds, write_at, resize_to, IsClean}
use pgfs.Db.Keeps.{Keeps}
use pgfs.Db.Keys.{HasKeys}
use pgfs.Db.Keys.Contents.{write_range-Keeps, truncate-Keeps}
use pgfs.Db.Volume.{
  Node, directory, regular, Volume, node, pair_key, changed, act, after, done, writes, truncates,
  overwrites, IsRegular,
}
use pgfs.Db.Volume.Shows.{Represents, Shows, changed-Represents, same-Represents}

-- An operation that succeeds leaves tables that keep their primary keys.
pub kept_keys :
    {A : Type 0} (m : Exec A) (a : A) (v : Volume) (s s' : Db)
    → Keeps HasKeys m
    → m (calm s) ≡ (ok a, calm s')
    → Represents v s
    → HasKeys s'.tables
kept_keys m a v s s' k runs r = rw runs at (k.at (calm s) (r.keyed, r.table))

-- The same of an action whose answer is `done`.
done_after :
    (m : Exec (Unit {0})) (v' : Volume) (s : Db)
    → (s' : Db) × (m (calm s) ≡ (ok tt, calm s')) × Represents v' s'
    → (s' : Db) × ((m >>= (λ _. pure done)) (calm s) ≡ (ok done, calm s')) × Represents v' s'
done_after m v' s (s', runs, r) = (s', bind_ok m (λ _. pure done) (calm s) runs, r)

module _ (p n : Str) (offset : ℕ) (buf : Bytes) (some_bytes : 0 < length buf)
    (fits : offset + length buf ≤ 2 ^ 47) (v : Volume) (s : Db) (r : Represents v s) where
  writes_to :
      (o : Option Node)
      → Shows p n o s
      → IsRegular o (λ f. Unit {0})
      → (s' : Db) × (write_range p n offset buf (calm s) ≡ (ok tt, calm s'))
        × Represents (changed p n (write_at offset buf) o v) s'
  writes_to none h i = absurd i
  writes_to (some directory) h i = absurd i
  writes_to (some (regular f)) h i =
      let (s', runs, w) =
        write_range-Wrote p n offset buf h.row h.attributes s some_bytes fits h.has in
      let keys =
        kept_keys (write_range p n offset buf) tt v s s' (write_range-Keeps p n offset buf) runs
          r in
      let x = regular (write_at offset buf f) in
      (
        s',
        runs,
        changed-Represents p n (some x) v _ s s' (λ q m. get-put (p, n) (q, m) x v)
            w.entries_elsewhere w.elsewhere keys.0 keys.1
            (Wrote-Holds p n f s h offset buf s' some_bytes fits w) r,
      )

  pub writes-Represents :
      IsRegular (node p n v) (λ f. Unit {0})
      → (s' : Db) × (act (writes p n offset buf) (calm s) ≡ (ok done, calm s'))
        × Represents (after (writes p n offset buf) v) s'
  writes-Represents i =
      done_after (write_range p n offset buf) _ s (writes_to (node p n v) (r.shows p n) i)

module _ (p n : Str) (size : ℕ) (fits : size < 2 ^ 47) (v : Volume) (s : Db)
    (r : Represents v s) where
  truncates_to :
      (o : Option Node)
      → Shows p n o s
      → IsRegular o (IsClean size)
      → (s' : Db) × (truncate p n size (calm s) ≡ (ok tt, calm s'))
        × Represents (changed p n (resize_to size) o v) s'
  truncates_to none h i = absurd i
  truncates_to (some directory) h i = absurd i
  truncates_to (some (regular f)) h i =
      let (s', runs, t) = truncate-Truncated p n size h.row h.attributes s fits h.is_file h.has in
      let keys = kept_keys (truncate p n size) tt v s s' (truncate-Keeps p n size) runs r in
      let x = regular (resize_to size f) in
      (
        s',
        runs,
        changed-Represents p n (some x) v _ s s' (λ q m. get-put (p, n) (q, m) x v)
            t.entries_elsewhere t.elsewhere keys.0 keys.1
            (Truncated-Holds p n f s h size s' fits i t) r,
      )

  pub truncates-Represents :
      IsRegular (node p n v) (IsClean size)
      → (s' : Db) × (act (truncates p n size) (calm s) ≡ (ok done, calm s'))
        × Represents (after (truncates p n size) v) s'
  truncates-Represents i =
      done_after (truncate p n size) _ s (truncates_to (node p n v) (r.shows p n) i)

resize_to-zero : (f : Bytes) → resize_to 0 f ≡ []
resize_to-zero [] = refl
resize_to-zero (x ∷ f) =
    let none_left : 0 - suc (length f) ≡ 0 = omega arith in ap (λ k. replicate k 0) none_left

drop_empty : (k : ℕ) → drop {A = ℕ} k [] ≡ []
drop_empty zero = refl
drop_empty (suc k) = refl

write_at-empty : (buf : Bytes) → write_at 0 buf [] ≡ buf
write_at-empty buf = ap (λ xs. buf ++ xs) (drop_empty (0 + length buf)) ∙ append_nil buf

module _ (p n : Str) (v : Volume) (s : Db) (r : Represents v s) where
  put_twice :
      (x y : Node) (q m : Str)
      → node q m (put (p, n) y v) ≡ node q m (put (p, n) y (put (p, n) x v))
  put_twice x y q m = ground (
    arith,
    get-put (p, n) (q, m) y v,
    get-put (p, n) (q, m) y (put (p, n) x v),
    get-put (p, n) (q, m) x v,
  )

  put_same : (x : Node) → node p n (put (p, n) x v) ≡ some x
  put_same x = ground (arith, get-put (p, n) (p, n) x v, str_key.same_iff p p, str_key.same_iff n n)

  -- After the truncation to 0.
  fills :
      (buf : Bytes) (s₁ : Db)
      → length buf ≤ 2 ^ 47
      → Represents (put (p, n) (regular []) v) s₁
      → (s' : Db) × (write_range p n 0 buf (calm s₁) ≡ (ok tt, calm s'))
        × Represents (put (p, n) (regular buf) v) s'
  unfolding write_range
  fills [] s₁ fits r₁ = (s₁, refl, r₁)
  fills (x ∷ xs) s₁ fits r₁ =
      let v₁ = put (p, n) (regular []) v in
      let (s', runs, r') =
        writes_to p n 0 (x ∷ xs) (omega arith) (omega arith) v₁ s₁ r₁ (some (regular []))
          (rw (put_same (regular [])) at (r₁.shows p n)) tt in
      (
        s',
        runs,
        same-Represents _ _ s' (put_twice (regular []) (regular (x ∷ xs)))
            (rw (write_at-empty (x ∷ xs)) at r'),
      )

  overwrites_to :
      (buf : Bytes) (o : Option Node)
      → length buf ≤ 2 ^ 47
      → Shows p n o s
      → IsRegular o (IsClean 0)
      → (s' : Db) × (write p n buf (calm s) ≡ (ok tt, calm s'))
        × Represents (changed p n (λ f. buf) o v) s'
  unfolding write
  overwrites_to buf none fits h i = absurd i
  overwrites_to buf (some directory) fits h i = absurd i
  overwrites_to buf (some (regular f)) fits h i =
      let (s₁, cuts, r₁) = truncates_to p n 0 (omega arith) v s r (some (regular f)) h i in
      let (s', runs, r') = fills buf s₁ fits (rw (resize_to-zero f) at r₁) in
      (s', bind_ok (truncate p n 0) _ (calm s) cuts ∙ runs, r')

pub overwrites-Represents :
    (p n : Str) (buf : Bytes)
    → length buf ≤ 2 ^ 47
    → (v : Volume) (s : Db) → Represents v s
    → IsRegular (node p n v) (IsClean 0)
    → (s' : Db) × (act (overwrites p n buf) (calm s) ≡ (ok done, calm s'))
      × Represents (after (overwrites p n buf) v) s'
overwrites-Represents p n buf fits v s r i =
    done_after (write p n buf) _ s (overwrites_to p n v s r buf (node p n v) fits (r.shows p n) i)
