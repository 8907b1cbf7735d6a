-- ===== src/Db/Content/Stale.antt =====
-- `Db::truncate` (src/db.rs) to a multiple of the block size: the block behind the new end stays.
use pgfs.Prelude.{
  ℕ, ◌+◌, ◌-◌, ◌%◌, ◌^◌, ◌<◌, min, ◌≡◌, ◌∙◌, ap, some, arith, Str, length, drop, nat_key,
  length-drop, get_or-take_if, get_or-drop,
}
use pgfs.Block.{Bytes, block_size}
use pgfs.Db.Rows.{EntryRow, FileMeta, ok}
use pgfs.Db.Exec.{Db, ◌>>◌}
use pgfs.Db.Content.{read_range, truncate}
use pgfs.Db.Content.Whole.{calm, Has, bind_ok}
use pgfs.Db.Content.RoundTrip.{read_range-Reading, equal_bytes}
use pgfs.Db.Content.Truncate.{truncate-Truncated}
use pgfs.Db.Content.File.{read_at, Holds, length-take, row_to_meta-resized}

-- The bytes of the block at `size` that a file of `total` bytes has.
abbrev pub rest_of_block : ℕ → ℕ → ℕ
rest_of_block size total = min block_size (total - size)

-- Where no statement fails, a file that is truncated to a smaller multiple of the block size, and
-- then to its former size, reads in the first block behind the smaller size as it did before, not as
-- zeros.
pub read_range-truncate-truncate :
    (p n : Str) (f : Bytes) (size : ℕ) (s : Db)
    → size % block_size ≡ 0
    → size < length f
    → length f < 2 ^ 47
    → Holds p n f s
    → (s' : Db) × ((truncate p n size >> truncate p n (length f)) (calm s) ≡ (ok tt, calm s'))
      × ((read_range p n size (rest_of_block size (length f)) (calm s')).0
          ≡ ok (some (read_at size (rest_of_block size (length f)) f)))
read_range-truncate-truncate p n f size s whole smaller fits h =
    let r = h.row in
    let m = h.attributes in
    let (s₁, runs₁, t₁) = truncate-Truncated p n size r m s (omega arith) h.is_file h.has in
    let r₁ : EntryRow = record r { size = size; mtime = s.now } in
    let m₁ : FileMeta = record m { size = size; mtime = s.now } in
    let attributes₁ = row_to_meta-resized r m size s.now h.has.attributes (omega arith) in
    let has₁ : Has p n r₁ m₁ s₁ = record {
      found = t₁.entry;
      attributes = attributes₁;
      table = t₁.table;
    } in
    let (s₂, runs₂, t₂) = truncate-Truncated p n (length f) r₁ m₁ s₁ fits h.is_file has₁ in
    let m₂ : FileMeta = record m₁ { size = length f; mtime = s₁.now } in
    let has₂ : Has p n (record r₁ { size = length f; mtime = s₁.now }) m₂ s₂ = record {
      found = t₂.entry;
      attributes = row_to_meta-resized r₁ m₁ (length f) s₁.now attributes₁ fits;
      table = t₂.table;
    } in
    let len : ℕ = rest_of_block size (length f) in
    let (bytes, reads, good) =
      read_range-Reading p n size len (record r₁ { size = length f; mtime = s₁.now }) m₂ s₂
        h.is_file (omega arith) has₂ in
    (
      s₂,
      bind_ok (truncate p n size) (λ _. truncate p n (length f)) (calm s) runs₁ ∙ runs₂,
      reads
          ∙ ap (λ b. ok (some b))
              (equal_bytes bytes (read_at size len f)
                (ground (arith, good.size, length-take len (drop size f), length-drop size f))
                λ i k. ground (
                  arith,
                  k,
                  good.at_byte i,
                  t₂.at_byte (size + i),
                  t₁.at_byte (size + i),
                  h.size,
                  h.at_byte (size + i),
                  length-take len (drop size f),
                  length-drop size f,
                  get_or-take_if 0 len (drop size f) i,
                  get_or-drop 0 size f i,
                )),
    )
