-- ===== src/Db/Content/Edits.antt =====
-- Sequences of writes and truncations (src/db.rs), and the list of bytes that they make.
use pgfs.Prelude.{
  ℕ, ◌+◌, ◌/◌, ◌^◌, ◌≤◌, ◌<◌, ◌≡◌, ◌∙◌, refl, some, none, List, [], ◌∷◌, arith, Str, codes, length,
  nat_key, str_key, str_beq,
}
use pgfs.Block.{Bytes, block_size}
use pgfs.Db.Rows.{file, ok, row_to_meta, find_entry}
use pgfs.Db.Exec.{Db, Exec, pure, update, execute, ◌>>◌}
use pgfs.Db.Content.{read_range, write_range, truncate}
use pgfs.Db.Content.Stored.{stored, IsTable}
use pgfs.Db.Content.Whole.{calm, bind_ok}
use pgfs.Db.Content.File.{
  read_at, resize_to, write_at, Holds, IsClean, write_range-Holds, read_range-Holds, truncate-Holds,
}
use pgfs.Db.Names.{insert, create}
use pgfs.Db.Names.Insert.{new_row, inserted, find_entry-insert_entry}

data Edit : Type 0 where
  writes : ℕ → Bytes → Edit
  truncates : ℕ → Edit

-- The edits on the server, and on a list of bytes.
abbrev edit : Str → Str → Edit → Exec (Unit {0})
edit p n (writes offset buf) = write_range p n offset buf
edit p n (truncates size) = truncate p n size

abbrev perform : Str → Str → List Edit → Exec (Unit {0})
perform p n [] = pure tt
perform p n (e ∷ es) = do edit p n e; perform p n es

abbrev edited : Edit → Bytes → Bytes
edited (writes offset buf) f = write_at offset buf f
edited (truncates size) f = resize_to size f

abbrev performed : List Edit → Bytes → Bytes
performed [] f = f
performed (e ∷ es) f = performed es (edited e f)

-- A write has some bytes and ends at most at 2^47; a truncation is to less than 2^47 bytes and is
-- clean.
abbrev IsAllowed : Edit → Bytes → Type 0
IsAllowed (writes offset buf) f = (0 < length buf) × (offset + length buf ≤ 2 ^ 47)
IsAllowed (truncates size) f = (size < 2 ^ 47) × IsClean size f

abbrev AreAllowed : List Edit → Bytes → Type 0
AreAllowed [] f = Unit {0}
AreAllowed (e ∷ es) f = IsAllowed e f × AreAllowed es (edited e f)

row_to_meta-new_row :
    (p n : Str) (now : ℕ)
    → row_to_meta (new_row (codes "file") p n now)
      ≡ ok (record { name = n; kind = file; size = 0; mtime = now })
unfolding row_to_meta str_beq
row_to_meta-new_row p n now = refl

module _ (p n : Str) where
  edit-Holds :
      (e : Edit) (f : Bytes) (s : Db)
      → Holds p n f s
      → IsAllowed e f
      → (s' : Db) × (edit p n e (calm s) ≡ (ok tt, calm s')) × Holds p n (edited e f) s'
  edit-Holds (writes offset buf) f s h (some_bytes, fits) =
      write_range-Holds p n f s h offset buf some_bytes fits
  edit-Holds (truncates size) f s h (fits, clean) = truncate-Holds p n f s h size fits clean

  perform-Holds :
      (es : List Edit) (f : Bytes) (s : Db)
      → Holds p n f s
      → AreAllowed es f
      → (s' : Db) × (perform p n es (calm s) ≡ (ok tt, calm s')) × Holds p n (performed es f) s'
  perform-Holds [] f s h a = (s, refl, h)
  perform-Holds (e ∷ es) f s h (a, as_) =
      let (s₁, runs, h₁) = edit-Holds e f s h a in
      let (s', runs', h') = perform-Holds es (edited e f) s₁ h₁ as_ in
      (s', bind_ok (edit p n e) (λ _. perform p n es) (calm s) runs ∙ runs', h')

  -- A name that the tables do not know.
  pub record IsFree (s : Db) : Type 0 where
    pub no_entry : find_entry p n s.tables.entries ≡ none
    pub no_blocks : (k : ℕ) → stored p n k s.tables.blocks ≡ none
    pub table : IsTable s.tables.blocks

  pub create-Holds :
      (s : Db)
      → IsFree s
      → create p n (calm s) ≡ (ok tt, calm (inserted (codes "file") p n s))
        × Holds p n [] (inserted (codes "file") p n s)
  unfolding create insert update execute
  create-Holds s free = (
    refl,
    record {
      row = new_row (codes "file") p n s.now;
      attributes = record { name = n; kind = file; size = 0; mtime = s.now };
      has = record {
        found = ground (
          arith,
          free.no_entry,
          find_entry-insert_entry (codes "file") p n p n s.now s.tables.entries,
          str_key.same_iff p p,
          str_key.same_iff n n,
        );
        attributes = row_to_meta-new_row p n s.now;
        table = free.table;
      };
      is_file = refl;
      size = refl;
      fits = omega arith;
      at_byte = λ i h. ground (arith, free.no_blocks (i / block_size));
    },
  )

  -- Where no statement fails, a file that is created under a free name, and then written and
  -- truncated in any way that is allowed, reads at every offset as the list of bytes that these edits
  -- make of the empty list.
  read_range-perform :
      (es : List Edit) (offset len : ℕ) (s : Db)
      → IsFree s
      → AreAllowed es []
      → offset + len ≤ 2 ^ 47
      → (s' : Db) × ((create p n >> perform p n es) (calm s) ≡ (ok tt, calm s'))
        × ((read_range p n offset len (calm s')).0
            ≡ ok (some (read_at offset len (performed es []))))
  read_range-perform es offset len s free allowed fits =
      let (creates, h₀) = create-Holds s free in
      let (s', runs, h) = perform-Holds es [] (inserted (codes "file") p n s) h₀ allowed in
      (
        s',
        bind_ok (create p n) (λ _. perform p n es) (calm s) creates ∙ runs,
        read_range-Holds p n (performed es []) s' h offset len fits,
      )
