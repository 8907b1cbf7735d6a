-- ===== src/Db/Content/RoundTrip.antt =====
-- `Db::read_range` (src/db.rs) where no statement fails, and what it reads after `Db::write_range`.
use pgfs.Prelude.{
  ℕ, suc, ◌+◌, ◌-◌, ◌/◌, ◌^◌, ◌≤◌, ◌<◌, min, max, ◌≡◌, ◌∙◌, refl, sym, ap, Bool, true, false, ◌||◌,
  Option, some, List, [], ◌∷◌, arith, Str, length, get_or, leb, nat_beq, if◌then◌else◌, as_i32,
  add64, sub64, nat_key, Option-cases, inl, inr,
}
use pgfs.Metrics.{Metrics, fetch_add, replica_fallback_count}
use pgfs.Dict.{Dict}
use pgfs.Block.{Bytes, block_size}
use pgfs.Handle.Write.{byte_at}
use pgfs.Db.Rows.{EntryRow, BlockRow, FileMeta, file, Result, ok, read_blocks, row_to_meta}
use pgfs.Db.Exec.{Db, Exec, query, execute, unwrap, pure, ◌>>=◌}
use pgfs.Db.Replica.{getattr_primary, record_replica_fallback_if_configured}
use pgfs.Db.Content.{
  collect, assemble, read_fuel, read_file, read_meta, read_range_primary, read_range, write_range,
}
use pgfs.Db.Content.Assemble.{block_of-get, assemble-Assembles}
use pgfs.Db.Content.Stored.{IsTable, file_byte, get-read_blocks}
use pgfs.Db.Content.Whole.{calm, Has, bind_ok, getattr_primary_lem, write_range-Wrote}

-- What a read of `len` bytes at `offset` gives.
pub record Reading (p n : Str) (offset len : ℕ) (rows : List BlockRow) (bytes : Bytes)
    : Type 0 where
  pub size : length bytes ≡ len
  pub at_byte : (i : ℕ) → i < len → get_or bytes i 0 ≡ file_byte p n rows (offset + i)

module _ (p n : Str) (offset len : ℕ) (rows : List BlockRow) (table : IsTable rows)
    (fits : offset + len ≤ 2 ^ 47) where
  abbrev fetched : Dict ℕ Bytes
  fetched =
      collect
        (read_blocks p n (as_i32 (offset / block_size))
          (as_i32 (sub64 (add64 offset len) 1 / block_size)) rows)
        []

  byte_at-fetched :
      (i : ℕ) → i < len → byte_at fetched (offset + i) ≡ file_byte p n rows (offset + i)
  byte_at-fetched i h = ground (
    arith,
    block_of-get ((offset + i) / block_size) fetched,
    get-read_blocks p n (as_i32 (offset / block_size))
        (as_i32 (sub64 (add64 offset len) 1 / block_size)) ((offset + i) / block_size) rows table,
  )

  assemble-Reading :
      (bytes : Bytes) × (assemble (read_fuel len) fetched offset (add64 offset len) ≡ some bytes)
      × Reading p n offset len rows bytes
  assemble-Reading =
      let (bytes, runs, good) = assemble-Assembles fetched offset len fits in
      let end : add64 offset len ≡ offset + len = ground arith in
      (
        bytes,
        ap (λ e. assemble (read_fuel len) fetched offset e) end ∙ runs,
        record {
          size = omega (arith, good.0);
          at_byte = λ i h. good.1 i (omega arith) ∙ byte_at-fetched i h;
        },
      )

-- The part of `read_file` behind its early returns.
abbrev read_part : Str → Str → ℕ → ℕ → Exec (Option Bytes)
read_part p n offset len = do
  rows ← query (λ t.
      read_blocks p n (as_i32 (offset / block_size))
        (as_i32 (sub64 (add64 offset len) 1 / block_size)) t.blocks)
  bytes ← unwrap (assemble (read_fuel len) (collect rows []) offset (add64 offset len))
  pure (some bytes)

-- What it means that a read of `len` bytes succeeds on `s` with the bytes of the file.
abbrev Succeeds : Str → Str → ℕ → ℕ → Db → Result (Option Bytes) → Type 0
Succeeds p n offset len s result =
    (bytes : Bytes) × (result ≡ ok (some bytes)) × Reading p n offset len s.tables.blocks bytes

module _ (p n : Str) (offset len : ℕ) (s : Db) (table : IsTable s.tables.blocks)
    (fits : offset + len ≤ 2 ^ 47) where
  read_part_lem : Succeeds p n offset len s (read_part p n offset len (calm s)).0
  unfolding query execute
  read_part_lem =
      let (bytes, runs, good) = assemble-Reading p n offset len s.tables.blocks table fits in
      (bytes, rw runs refl, good)

  guarded_lem :
      (stop : Bool)
      → (stop ≡ true → len ≡ 0)
      → Succeeds p n offset len s
          ((if stop then pure (some []) else read_part p n offset len) (calm s)).0
  guarded_lem true h =
      ([], refl, record { size = sym (h refl); at_byte = λ i k. absurd (omega (arith, h refl)) })
  guarded_lem false h = read_part_lem

module _ (p n : Str) (offset len : ℕ) (r : EntryRow) (m : FileMeta) (is_file : m.kind ≡ file)
    (fits : offset + min len (m.size - offset) ≤ 2 ^ 47) where
  read_meta_lem :
      (s : Db)
      → IsTable s.tables.blocks
      → Succeeds p n offset
          (min len (m.size - offset))
          s
          (read_meta p n offset len (some m) (calm s)).0
  unfolding read_meta read_file
  read_meta_lem s table =
      rw (is_file, read_meta)
        (guarded_lem p n offset (min len (m.size - offset)) s table fits
          (leb m.size offset || nat_beq (min len (m.size - offset)) 0) (λ e. ground arith))

  read_range_primary_lem :
      (s : Db)
      → Has p n r m s
      → Succeeds p n offset
          (min len (m.size - offset))
          s
          (read_range_primary p n offset len (calm s)).0
  unfolding read_range_primary
  read_range_primary_lem s h =
      let (bytes, runs, good) = read_meta_lem s h.table in
      (
        bytes,
        ap (λ x. x.0) (bind_ok (getattr_primary p n) _ (calm s) (getattr_primary_lem p n r m s h))
            ∙ runs,
        good,
      )

abbrev noted : Metrics → Metrics
noted m = record (fetch_add replica_fallback_count m) { replica_fallback_warned = true }

-- Of the server and the program, `record_replica_fallback_if_configured` changes only the metrics.
pub fallback_lem :
    (s : Db)
    → (metrics : Metrics) × (record_replica_fallback_if_configured (calm s)
        ≡ (ok tt, calm (record s { metrics = metrics })))
unfolding record_replica_fallback_if_configured
fallback_lem s = elim (Option-cases s.replica) [
  | inl e ↦ (
    s.metrics,
    rw (e, record_replica_fallback_if_configured) λ i. (ok tt, record (calm s) { replica = e i }),
  )
  | inr (standby, e) ↦ (
    noted s.metrics,
    rw (e, record_replica_fallback_if_configured)
        λ i. (ok tt, record (calm s) { replica = e i; metrics = noted s.metrics }),
  )
]

-- Where no statement fails, and the bytes asked for, cut at the file's size, end at most at 2^47,
-- read_range of a file succeeds: its loop ends, and it gives the bytes that the primary's table
-- holds at the positions asked for, as many of them as the file's size allows, whether or not there
-- is a standby.
pub read_range-Reading :
    (p n : Str) (offset len : ℕ) (r : EntryRow) (m : FileMeta) (s : Db)
    → m.kind ≡ file
    → offset + min len (m.size - offset) ≤ 2 ^ 47
    → Has p n r m s
    → (bytes : Bytes) × ((read_range p n offset len (calm s)).0 ≡ ok (some bytes))
      × Reading p n offset (min len (m.size - offset)) s.tables.blocks bytes
unfolding read_range
read_range-Reading p n offset len r m s is_file fits h =
    let (metrics, e) = fallback_lem s in
    let (bytes, runs, good) =
      read_range_primary_lem p n offset len r m is_file fits (record s { metrics = metrics })
        (record { found = h.found; attributes = h.attributes; table = h.table }) in
    (
      bytes,
      ap (λ x. x.0)
            (bind_ok record_replica_fallback_if_configured (λ _. read_range_primary p n offset len)
              (calm s) e)
          ∙ runs,
      good,
    )

pub equal_bytes :
    (xs ys : Bytes)
    → length xs ≡ length ys
    → ((i : ℕ) → i < length ys → get_or xs i 0 ≡ get_or ys i 0)
    → xs ≡ ys
equal_bytes [] [] h k = refl
equal_bytes [] (y ∷ ys) h k = absurd (omega arith)
equal_bytes (x ∷ xs) [] h k = absurd (omega arith)
equal_bytes (x ∷ xs) (y ∷ ys) h k =
    cc (k 0 (omega arith), equal_bytes xs ys (omega arith) λ i j. k (suc i) (omega arith))

abbrev pub grown : EntryRow → ℕ → ℕ → EntryRow
grown r end now = record r { size = max r.size end; mtime = now }

-- A row that grows still stands for a file.
pub row_to_meta-grown :
    (r : EntryRow) (m : FileMeta) (end now : ℕ)
    → row_to_meta r ≡ ok m
    → end ≤ 2 ^ 47
    → row_to_meta (grown r end now) ≡ ok (record m { size = max m.size end; mtime = now })
unfolding row_to_meta
row_to_meta-grown r m end now e h = ground arith

-- Where no statement fails, write_range of some bytes that end at most at 2^47 to a file succeeds,
-- and then read_range of as many bytes at the same offset gives exactly these bytes.
pub read_range-write_range :
    (p n : Str) (offset : ℕ) (buf : Bytes) (r : EntryRow) (m : FileMeta) (s : Db)
    → 0 < length buf
    → offset + length buf ≤ 2 ^ 47
    → m.kind ≡ file
    → Has p n r m s
    → (s' : Db) × (write_range p n offset buf (calm s) ≡ (ok tt, calm s'))
      × ((read_range p n offset (length buf) (calm s')).0 ≡ ok (some buf))
read_range-write_range p n offset buf r m s some_bytes fits is_file h =
    let (s', runs, w) = write_range-Wrote p n offset buf r m s some_bytes fits h in
    let (bytes, reads, good) =
      read_range-Reading p n offset (length buf) (grown r (offset + length buf) s.now)
        (record m { size = max m.size (offset + length buf); mtime = s.now }) s' is_file
        (omega arith)
        (record {
          found = w.entry;
          attributes = row_to_meta-grown r m (offset + length buf) s.now h.attributes fits;
          table = w.table;
        }) in
    (
      s',
      runs,
      reads
          ∙ ap (λ b. ok (some b))
              (equal_bytes bytes buf (omega (arith, good.size))
                λ i j. ground (arith, good.at_byte i, w.at_byte (offset + i))),
    )
