-- ===== src/Db/Content/File.antt =====
-- A file as one list of bytes, and how the operations of src/db.rs on its contents carry it out.
use pgfs.Prelude.{
  ℕ, zero, suc, ◌+◌, ◌-◌, ◌%◌, ◌^◌, ◌≤◌, ◌<◌, min, max, ◌≡◌, ◌≢◌, ◌⊎◌, inl, inr, ◌∙◌, sym, ap,
  false, ◌&&◌, some, List, [], ◌∷◌, ◌++◌, arith, Str, length, take, drop, replicate, get_or, leb,
  ltb, if◌then◌else◌, nat_key, length-append, length-replicate, length-drop, get_or-append,
  get_or-replicate, get_or-take_if, get_or-drop, get_or-past,
}
use pgfs.Block.{Bytes, block_size}
use pgfs.Db.Rows.{EntryRow, FileMeta, file, ok, row_to_meta}
use pgfs.Db.Exec.{Db}
use pgfs.Db.Content.{read_range, write_range, truncate}
use pgfs.Db.Content.Stored.{file_byte}
use pgfs.Db.Content.Whole.{calm, Has, Wrote, write_range-Wrote}
use pgfs.Db.Content.RoundTrip.{read_range-Reading, grown, row_to_meta-grown, equal_bytes}
use pgfs.Db.Content.Truncate.{Truncated, truncate-Truncated}
use pgfs.Db.Content.Shrink.{in_kept_block}

-- The file's bytes from `offset` on, `len` at most.
abbrev pub read_at : ℕ → ℕ → Bytes → Bytes
read_at offset len f = take len (drop offset f)

-- The file with `size` bytes: cut, or filled up with zeros.
abbrev pub resize_to : ℕ → Bytes → Bytes
resize_to size f = take size f ++ replicate (size - length f) 0

-- The file with `buf` at `offset`, behind zeros where the file is too short.
abbrev pub write_at : ℕ → Bytes → Bytes → Bytes
write_at offset buf f = resize_to offset f ++ (buf ++ drop (offset + length buf) f)

pub length-take {ℓ} : {A : Type ℓ} (n : ℕ) (xs : List A) → length (take n xs) ≡ min n (length xs)
length-take zero xs = ground arith
length-take (suc n) [] = ground arith
length-take (suc n) (x ∷ xs) = ground (arith, length-take n xs)

module _ (size : ℕ) (f : Bytes) where
  length-resize_to : length (resize_to size f) ≡ size
  length-resize_to = ground (
    arith,
    length-append (take size f) (replicate (size - length f) 0),
    length-replicate {A = ℕ} (size - length f) 0,
    length-take size f,
  )

  get_or-resize_to :
      (i : ℕ) → get_or (resize_to size f) i 0 ≡ (if ltb i size then get_or f i 0 else 0)
  get_or-resize_to i = ground (
    arith,
    get_or-append 0 (take size f) (replicate (size - length f) 0) i,
    get_or-replicate {A = ℕ} 0 (size - length f) (i - length (take size f)),
    length-take size f,
    get_or-take_if 0 size f i,
    get_or-past 0 f i,
  )

module _ (offset : ℕ) (buf f : Bytes) where
  pub length-write_at :
      0 < length buf → length (write_at offset buf f) ≡ max (length f) (offset + length buf)
  length-write_at h = ground (
    arith,
    length-append (resize_to offset f) (buf ++ drop (offset + length buf) f),
    length-append buf (drop (offset + length buf) f),
    length-resize_to offset f,
    length-drop (offset + length buf) f,
  )

  pub get_or-write_at :
      (i : ℕ)
      → get_or (write_at offset buf f) i 0 ≡ (
          if leb offset i && ltb i (offset + length buf)
          then get_or buf (i - offset) 0
          else get_or f i 0)
  get_or-write_at i = ground (
    arith,
    get_or-append 0 (resize_to offset f) (buf ++ drop (offset + length buf) f) i,
    get_or-append 0 buf (drop (offset + length buf) f) (i - offset),
    length-resize_to offset f,
    get_or-resize_to offset f i,
    get_or-drop 0 (offset + length buf) f (i - offset - length buf),
  )

-- The server holds the file `f`: its entry is that of a file of this size, and its blocks have the
-- bytes of `f`, and none but zeros behind them.
pub record Holds (p n : Str) (f : Bytes) (s : Db) : Type 0 where
  pub row : EntryRow
  pub attributes : FileMeta
  pub has : Has p n row attributes s
  pub is_file : attributes.kind ≡ file
  pub size : attributes.size ≡ length f
  pub fits : length f ≤ 2 ^ 47
  pub at_byte : (i : ℕ) → i < 2 ^ 47 → file_byte p n s.tables.blocks i ≡ get_or f i 0

module _ (p n : Str) (f : Bytes) (s : Db) (holds : Holds p n f s) where
  pub Wrote-Holds :
      (offset : ℕ) (buf : Bytes) (s' : Db)
      → 0 < length buf
      → offset + length buf ≤ 2 ^ 47
      → Wrote p n offset buf holds.row s s'
      → Holds p n (write_at offset buf f) s'
  Wrote-Holds offset buf s' some_bytes fits w =
      let r = holds.row in
      let m = holds.attributes in
      record {
        row = grown r (offset + length buf) s.now;
        attributes = record m { size = max m.size (offset + length buf); mtime = s.now };
        has = record {
          found = w.entry;
          attributes = row_to_meta-grown r m (offset + length buf) s.now holds.has.attributes fits;
          table = w.table;
        };
        is_file = holds.is_file;
        size = ground (arith, holds.size, length-write_at offset buf f some_bytes);
        fits = ground (arith, holds.fits, length-write_at offset buf f some_bytes);
        at_byte = λ i small.
            ground (arith, w.at_byte i, holds.at_byte i small, get_or-write_at offset buf f i);
      }

  pub write_range-Holds :
      (offset : ℕ) (buf : Bytes)
      → 0 < length buf
      → offset + length buf ≤ 2 ^ 47
      → (s' : Db) × (write_range p n offset buf (calm s) ≡ (ok tt, calm s'))
        × Holds p n (write_at offset buf f) s'
  write_range-Holds offset buf some_bytes fits =
      let (s', runs, w) =
        write_range-Wrote p n offset buf holds.row holds.attributes s some_bytes fits holds.has in
      (s', runs, Wrote-Holds offset buf s' some_bytes fits w)

  -- Where the server holds the file `f`, `read_range` gives what the list `f` has there.
  pub read_range-Holds :
      (offset len : ℕ)
      → offset + len ≤ 2 ^ 47
      → (read_range p n offset len (calm s)).0 ≡ ok (some (read_at offset len f))
  read_range-Holds offset len fits =
      let m = holds.attributes in
      let (bytes, reads, good) =
        read_range-Reading p n offset len holds.row m s holds.is_file (omega arith) holds.has in
      reads
      ∙ ap (λ b. ok (some b))
          (equal_bytes bytes (read_at offset len f)
            (ground
              (arith, good.size, holds.size, length-take len (drop offset f), length-drop offset f))
            λ i h. ground (
              arith,
              h,
              good.at_byte i,
              holds.size,
              holds.at_byte (offset + i),
              length-take len (drop offset f),
              length-drop offset f,
              get_or-take_if 0 len (drop offset f) i,
              get_or-drop 0 offset f i,
            ))

pub row_to_meta-resized :
    (r : EntryRow) (m : FileMeta) (size now : ℕ)
    → row_to_meta r ≡ ok m
    → size < 2 ^ 47
    → row_to_meta (record r { size = size; mtime = now })
      ≡ ok (record m { size = size; mtime = now })
unfolding row_to_meta
row_to_meta-resized r m size now e h = ground arith

-- The sizes to which a file can be truncated with no bytes left behind the new end.
abbrev pub IsClean : ℕ → Bytes → Type 0
IsClean size f = (size % block_size ≢ 0) ⊎ (length f ≤ size)

module _ (p n : Str) (f : Bytes) (s : Db) (holds : Holds p n f s) where
  clears : (size i : ℕ) → IsClean size f → (ltb size (length f) && in_kept_block size i) ≡ false
  clears size i (inl h) = ground arith
  clears size i (inr h) = ground arith

  pub Truncated-Holds :
      (size : ℕ) (s' : Db)
      → size < 2 ^ 47
      → IsClean size f
      → Truncated p n size holds.row holds.attributes s s'
      → Holds p n (resize_to size f) s'
  Truncated-Holds size s' fits clean t =
      let r = holds.row in
      let m = holds.attributes in
      record {
        row = record r { size = size; mtime = s.now };
        attributes = record m { size = size; mtime = s.now };
        has = record {
          found = t.entry;
          attributes = row_to_meta-resized r m size s.now holds.has.attributes fits;
          table = t.table;
        };
        is_file = holds.is_file;
        size = sym (length-resize_to size f);
        fits = omega (arith, length-resize_to size f);
        at_byte = λ i small. ground (
          arith,
          t.at_byte i small,
          holds.size,
          holds.at_byte i small,
          clears size i clean,
          get_or-resize_to size f i,
          get_or-past 0 f i,
        );
      }

  pub truncate-Holds :
      (size : ℕ)
      → size < 2 ^ 47
      → IsClean size f
      → (s' : Db) × (truncate p n size (calm s) ≡ (ok tt, calm s'))
        × Holds p n (resize_to size f) s'
  truncate-Holds size fits clean =
      let (s', runs, t) =
        truncate-Truncated p n size holds.row holds.attributes s fits holds.is_file holds.has in
      (s', runs, Truncated-Holds size s' fits clean t)
