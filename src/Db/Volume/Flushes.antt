-- ===== src/Db/Volume/Flushes.antt =====
-- `write_blocks_batch` (src/db.rs), the flush of a buffer, on a database that holds a map, where no
-- statement fails.
use pgfs.Prelude.{
  ℕ, zero, suc, ◌+◌, ◌/◌, ◌^◌, ◌≤◌, ◌<◌, max, ◌≡◌, refl, Option, none, some, [], ◌∷◌, arith, Str,
  str_key, nat_key, length, get_or, get_or-past, ltb, if◌then◌else◌,
}
use pgfs.Dict.{Dict, get, get-put}
use pgfs.Block.{Bytes, block_size}
use pgfs.Handle.Write.{byte_at, is_some, IsMap}
use pgfs.Db.Rows.{ok}
use pgfs.Db.Exec.{Db}
use pgfs.Db.Content.{write_blocks_batch}
use pgfs.Db.Content.Whole.{calm, bind_ok}
use pgfs.Db.Content.Batch.{Flushes, write_blocks_batch-Flushes}
use pgfs.Db.Content.RoundTrip.{grown, row_to_meta-grown}
use pgfs.Db.Content.File.{Holds}
use pgfs.Db.Keys.Contents.{AreI32, write_blocks_batch-Keeps}
use pgfs.Db.Volume.{
  Node, directory, regular, Volume, node, pair_key, changed, act, after, done, flushes, IsRegular,
  tabulate, flush_at, EndsBy,
}
use pgfs.Db.Volume.Contents.{kept_keys}
use pgfs.Db.Volume.Shows.{Represents, Shows, changed-Represents}

length-tabulate : (i n : ℕ) (g : ℕ → ℕ) → length (tabulate i n g) ≡ n
length-tabulate i zero g = refl
length-tabulate i (suc n) g = ground (arith, length-tabulate (i + 1) n g)

get_or-tabulate :
    (i n : ℕ) (g : ℕ → ℕ) (k : ℕ) → get_or (tabulate i n g) k 0 ≡ (if ltb k n then g (i + k) else 0)
get_or-tabulate i zero g k = ground arith
get_or-tabulate i (suc n) g zero = ground arith
get_or-tabulate i (suc n) g (suc k) = ground (arith, get_or-tabulate (i + 1) n g k)

IsMap-AreI32 : (blocks : Dict ℕ Bytes) → IsMap blocks → AreI32 blocks
IsMap-AreI32 [] m = tt
IsMap-AreI32 ((k, v) ∷ blocks) (new, small, m) = (small, IsMap-AreI32 blocks m)

module _ (p n : Str) (blocks : Dict ℕ Bytes) (size : ℕ) (fits : size ≤ 2 ^ 47) where
  -- What is in the file at a place after the flush.
  abbrev flushed_byte : Bytes → ℕ → ℕ
  flushed_byte f i =
      if is_some (get (i / block_size) blocks) then byte_at blocks i else get_or f i 0

  Flushes-Holds :
      (f : Bytes) (s s' : Db) (h : Holds p n f s)
      → EndsBy blocks (max (length f) size)
      → Flushes p n blocks size h.row s s'
      → Holds p n (flush_at blocks size f) s'
  Flushes-Holds f s s' h ends w =
      let sized = length-tabulate 0 (max (length f) size) (flushed_byte f) in
      record {
        row = grown h.row size s.now;
        attributes = record h.attributes { size = max h.attributes.size size; mtime = s.now };
        has = record {
          found = w.entry;
          attributes = row_to_meta-grown h.row h.attributes size s.now h.has.attributes fits;
          table = w.table;
        };
        is_file = h.is_file;
        size = ground (arith, h.size, sized);
        fits = ground (arith, h.fits, sized);
        at_byte = λ i small. ground (
          arith,
          w.at_byte i,
          h.at_byte i small,
          get_or-tabulate 0 (max (length f) size) (flushed_byte f) i,
          ends i,
          get_or-past 0 f i,
        );
      }

  module _ (map_ : IsMap blocks) (some_size : 0 < size) (v : Volume) (s : Db)
      (r : Represents v s) where
    flushes_to :
        (o : Option Node)
        → Shows p n o s
        → IsRegular o (λ f. EndsBy blocks (max (length f) size))
        → (s' : Db) × (act (flushes p n blocks size) (calm s) ≡ (ok done, calm s'))
          × Represents (changed p n (flush_at blocks size) o v) s'
    flushes_to none h i = absurd i
    flushes_to (some directory) h i = absurd i
    flushes_to (some (regular f)) h ends =
        let (s', runs, w) =
          write_blocks_batch-Flushes p n blocks size some_size h.row h.attributes s map_ h.has in
        let keys =
          kept_keys (write_blocks_batch p n blocks size) tt v s s'
            (write_blocks_batch-Keeps p n blocks size (IsMap-AreI32 blocks map_)) runs r in
        let x = regular (flush_at blocks size f) in
        (
          s',
          bind_ok (write_blocks_batch p n blocks size) _ (calm s) runs,
          changed-Represents p n (some x) v _ s s' (λ q m. get-put (p, n) (q, m) x v)
              w.entries_elsewhere w.elsewhere keys.0 keys.1 (Flushes-Holds f s s' h ends w) r,
        )

    pub flushes-Represents :
        IsRegular (node p n v) (λ f. EndsBy blocks (max (length f) size))
        → (s' : Db) × (act (flushes p n blocks size) (calm s) ≡ (ok done, calm s'))
          × Represents (after (flushes p n blocks size) v) s'
    flushes-Represents = flushes_to (node p n v) (r.shows p n)
