-- ===== src/Db/Content/Writing.antt =====
-- What the loop of `Db::write_range` (src/db.rs) leaves in the table `blocks`, byte for byte, where
-- no statement fails.
use pgfs.Prelude.{
  ℕ, zero, suc, ◌+◌, ◌-◌, ◌*◌, ◌/◌, ◌%◌, ◌^◌, ◌≤◌, ◌<◌, ◌≡◌, ◌∙◌, refl, Bool, true, false, ◌&&◌,
  ◌||◌, List, [], arith, Str, length, get_or, ltb, leb, if◌then◌else◌, u32_mod, nat_key, str_key,
  ◌==◌,
}
use pgfs.Block.{Bytes, block_size, patch}
use pgfs.Block.View.{write_start, chunk, chunk_of_lem, length-chunk, get_or-chunk, get_or-patch}
use pgfs.Db.Rows.{BlockRow, read_blocks, upsert_block, ok}
use pgfs.Db.Exec.{Db, pure, query, update, execute, ◌>>=◌}
use pgfs.Db.Content.{first_bytes, write_block, write_rounds}
use pgfs.Db.Content.Assemble.{bytes_or_empty}
use pgfs.Db.Content.Stored.{
  stored, IsTable, file_byte, first_bytes_lem, stored-upsert_block, upsert_block-IsTable,
}

-- The server with these rows of `blocks`, and no failure to come.
abbrev pub with_rows : Db → List BlockRow → Db
with_rows s rows = record s { tables = record s.tables { blocks = rows }; faults = [] }

-- The blocks of all other files are the same.
abbrev pub SameElsewhere : Str → Str → List BlockRow → List BlockRow → Type 0
SameElsewhere p n rows rows' =
    (q m : Str) (k : ℕ) → (p == q && n == m) ≡ false → stored q m k rows' ≡ stored q m k rows

-- The statements of a round, for a block that is read first or not.
patch_block :
    (p n : Str) (b : ℕ) (small : b < 2 ^ 31) (k : ℕ) (c : Bytes) (s : Db) (rows : List BlockRow)
    → IsTable rows
    → (reads : Bool)
    → ((if reads then query (λ t. first_bytes (read_blocks p n b b t.blocks)) else pure [])
          >>= λ block_data.
              update
                (λ t. record t { blocks = upsert_block p n b (patch block_data k c) t.blocks }))
        (with_rows s rows)
      ≡ (
        ok tt,
        with_rows s (
            upsert_block p n b
              (patch (if reads then bytes_or_empty (stored p n b rows) else []) k c)
              rows),
      )
unfolding query update execute
patch_block p n b small k c s rows t true = rw (first_bytes_lem p n b small rows t) refl
patch_block p n b small k c s rows t false = refl

module _ (p n : Str) (offset : ℕ) (buf : Bytes) (fits : offset + length buf ≤ 2 ^ 47) (s : Db) where
  abbrev pub end : ℕ
  end = offset + length buf

  -- The bytes of `rows`, but those of `buf` at the positions of `buf` in blocks `b` to `b + k - 1`.
  abbrev pub Spliced : ℕ → ℕ → List BlockRow → List BlockRow → Type 0
  Spliced b k rows rows' =
      (i : ℕ)
      → file_byte p n rows' i ≡ (
          if (leb b (i / block_size) && ltb (i / block_size) (b + k)) && (leb offset i && ltb i end)
          then get_or buf (i - offset) 0
          else file_byte p n rows i)

  module _ (b : ℕ) (starts : b * block_size < end)
      (ends : offset < b * block_size + block_size) where
    abbrev at_block : ℕ
    at_block = write_start offset buf b fits - b * block_size

    -- The data that the round starts from: nothing, if the block is overwritten as a whole.
    abbrev start_data : List BlockRow → Bytes
    start_data rows =
        if ltb 0 at_block || ltb (length (chunk offset buf b fits)) block_size
        then bytes_or_empty (stored p n b rows)
        else []

    abbrev after_block : List BlockRow → List BlockRow
    after_block rows =
        upsert_block p n b (patch (start_data rows) at_block (chunk offset buf b fits)) rows

    write_block_lem :
        (rows : List BlockRow)
        → IsTable rows
        → write_block p n offset end buf b (with_rows s rows)
          ≡ (ok tt, with_rows s (after_block rows))
    unfolding write_block
    write_block_lem rows t =
        rw (chunk_of_lem offset buf b fits starts ends, write_block)
          (patch_block p n b (omega arith) at_block (chunk offset buf b fits) s rows t
            (ltb 0 at_block || ltb (length (chunk offset buf b fits)) block_size))

    after_block-Spliced : (rows : List BlockRow) → Spliced b 1 rows (after_block rows)
    after_block-Spliced rows i = ground (
      arith,
      stored-upsert_block p n b (patch (start_data rows) at_block (chunk offset buf b fits)) p n
          (i / block_size) rows,
      str_key.same_iff p p,
      str_key.same_iff n n,
      get_or-patch (start_data rows) at_block (chunk offset buf b fits) (i % block_size),
      length-chunk offset buf b fits starts ends,
      get_or-chunk offset buf b fits (i % block_size - at_block),
    )

    after_block-SameElsewhere : (rows : List BlockRow) → SameElsewhere p n rows (after_block rows)
    after_block-SameElsewhere rows q m k other = ground (
      arith,
      stored-upsert_block p n b (patch (start_data rows) at_block (chunk offset buf b fits)) q m k
          rows,
    )

  -- What it means that `rows'` is `rows` with blocks `b` to `b + k - 1` written.
  pub record Written (b k : ℕ) (rows rows' : List BlockRow) : Type 0 where
    pub spliced : Spliced b k rows rows'
    pub elsewhere : SameElsewhere p n rows rows'
    pub table : IsTable rows'

  pub write_rounds_lem :
      (k b : ℕ) (rows : List BlockRow)
      → IsTable rows
      → offset < b * block_size + block_size
      → (b + k) * block_size < end + block_size
      → (rows' : List BlockRow) × (write_rounds k p n offset end buf b (with_rows s rows)
          ≡ (ok tt, with_rows s rows'))
        × Written b k rows rows'
  unfolding write_rounds
  write_rounds_lem zero b rows t h j = (
    rows,
    refl,
    record { spliced = λ i. ground arith; elsewhere = λ q m k other. refl; table = t },
  )
  write_rounds_lem (suc k) b rows t h j =
      let starts : b * block_size < end = omega arith in
      let (final, runs, w) =
        write_rounds_lem k ((b + 1) % u32_mod) (after_block b starts h rows)
          (upsert_block-IsTable p n b _ rows (omega arith) t) (omega arith) (omega arith) in
      (
        final,
        rw (write_block_lem b starts h rows t, write_rounds) runs,
        record {
          spliced = λ i. ground (arith, w.spliced i, after_block-Spliced b starts h rows i);
          elsewhere = λ q m i other.
              w.elsewhere q m i other ∙ after_block-SameElsewhere b starts h rows q m i other;
          table = w.table;
        },
      )
