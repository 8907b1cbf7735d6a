-- ===== src/Db/Content/Whole.antt =====
-- `Db::write_range` and `Db::read_range` (src/db.rs) as a whole, where no statement fails.
use pgfs.Prelude.{
  ℕ, suc, ◌+◌, ◌-◌, ◌/◌, ◌^◌, ◌≤◌, ◌<◌, max, ◌≡◌, ◌∙◌, refl, ap, false, ◌&&◌, ◌==◌, some, List, [],
  ◌∷◌, arith, Str, length, get_or, ltb, leb, if◌then◌else◌, i32_rounds, as_i32, add64, sub64,
  nat_key, str_key,
}
use pgfs.Block.{Bytes, block_size}
use pgfs.Db.Rows.{EntryRow, BlockRow, FileMeta, ok, row_to_meta, find_entry, update_size}
use pgfs.Db.Exec.{
  Db, Exec, continue, query, update, execute, transaction, finish, commit, ◌>>=◌, ◌>>◌,
}
use pgfs.Db.Replica.{getattr_primary, meta_of}
use pgfs.Db.Content.{write_rounds, set_size, write_range}
use pgfs.Db.Content.Stored.{IsTable, file_byte}
use pgfs.Db.Content.Writing.{with_rows, SameElsewhere, write_rounds_lem}

-- The server with no failure to come.
abbrev pub calm : Db → Db
calm s = with_rows s s.tables.blocks

pub find_entry-update_size :
    (p n : Str) (size now : ℕ) (rows : List EntryRow) (r : EntryRow)
    → find_entry p n rows ≡ some r
    → find_entry p n (update_size p n size now rows) ≡ some (record r { size = size; mtime = now })
unfolding find_entry update_size
find_entry-update_size p n size now [] r e = ground arith
find_entry-update_size p n size now (x ∷ xs) r e =
    ground (arith, find_entry-update_size p n size now xs r)

pub find_entry-update_size_other :
    (p n q m : Str) (size now : ℕ) (rows : List EntryRow)
    → (p == q && n == m) ≡ false
    → find_entry q m (update_size p n size now rows) ≡ find_entry q m rows
unfolding find_entry update_size
find_entry-update_size_other p n q m size now [] other = refl
find_entry-update_size_other p n q m size now (x ∷ xs) other = ground (
  arith,
  find_entry-update_size_other p n q m size now xs,
  str_key.same_iff x.parent p,
  str_key.same_iff x.name n,
  str_key.same_iff x.parent q,
  str_key.same_iff x.name m,
  str_key.same_iff p q,
  str_key.same_iff n m,
)

-- The entries of all other names are the same.
abbrev pub SameEntries : Str → Str → List EntryRow → List EntryRow → Type 0
SameEntries p n rows rows' =
    (q m : Str) → (p == q && n == m) ≡ false → find_entry q m rows' ≡ find_entry q m rows

pub row_to_meta-size : (r : EntryRow) (m : FileMeta) → row_to_meta r ≡ ok m → m.size ≡ r.size
unfolding row_to_meta
row_to_meta-size r m e = ground arith

-- The file's entry is `r`, with the attributes `m`, and the table of blocks keeps its primary key.
pub record Has (p n : Str) (r : EntryRow) (m : FileMeta) (s : Db) : Type 0 where
  pub found : find_entry p n s.tables.entries ≡ some r
  pub attributes : row_to_meta r ≡ ok m
  pub table : IsTable s.tables.blocks

meta_of_lem : (r : EntryRow) (m : FileMeta) → row_to_meta r ≡ ok m → meta_of (some r) ≡ ok (some m)
unfolding meta_of
meta_of_lem r m e = rw (e, meta_of) refl

pub getattr_primary_lem :
    (p n : Str) (r : EntryRow) (m : FileMeta) (s : Db)
    → Has p n r m s
    → getattr_primary p n (calm s) ≡ (ok (some m), calm s)
unfolding getattr_primary query execute meta_of
getattr_primary_lem p n r m s h = rw (h.found, meta_of_lem r m h.attributes) refl

-- What `write_range` of `buf` at `offset` leaves.
pub record Wrote (p n : Str) (offset : ℕ) (buf : Bytes) (r : EntryRow) (s s' : Db) : Type 0 where
  pub at_byte :
      (i : ℕ)
      → file_byte p n s'.tables.blocks i ≡ (
          if leb offset i && ltb i (offset + length buf)
          then get_or buf (i - offset) 0
          else file_byte p n s.tables.blocks i)
  pub entry :
      find_entry p n s'.tables.entries
      ≡ some (record r { size = max r.size (offset + length buf); mtime = s.now })
  pub entries_elsewhere : SameEntries p n s.tables.entries s'.tables.entries
  pub elsewhere : SameElsewhere p n s.tables.blocks s'.tables.blocks
  pub table : IsTable s'.tables.blocks

pub bind_ok :
    {A B : Type 0} (m : Exec A) (f : A → Exec B) (s : Db) {a : A} {s' : Db}
    → m s ≡ (ok a, s')
    → (m >>= f) s ≡ f a s'
bind_ok m f s e = ap (λ x. continue x.0 f x.1) e

abbrev pub written : Str → Str → ℕ → List BlockRow → Db → Db
written p n size rows s = record s {
  tables = record { entries = update_size p n size s.now s.tables.entries; blocks = rows };
  faults = [];
}

pub transaction_runs :
    (body : Exec (Unit {0})) (s s' : Db)
    → body (calm s) ≡ (ok tt, calm s')
    → transaction body (calm s) ≡ (ok tt, calm s')
unfolding transaction finish commit query execute
transaction_runs body s s' e = rw e refl

abbrev rounds_and_size : Str → Str → ℕ → Bytes → ℕ → ℕ → ℕ → ℕ → Exec (Unit {0})
rounds_and_size p n offset buf old k b end = do
  write_rounds k p n offset end buf b
  set_size p n (max old end)

rounds_and_size_lem :
    (p n : Str) (offset : ℕ) (buf : Bytes) (old k b end : ℕ) (s : Db) (rows : List BlockRow)
    → write_rounds k p n offset end buf b (calm s) ≡ (ok tt, with_rows s rows)
    → rounds_and_size p n offset buf old k b end (calm s)
      ≡ (ok tt, written p n (max old end) rows s)
unfolding set_size update execute
rounds_and_size_lem p n offset buf old k b end s rows e = rw e refl

rounds_lem :
    (offset l : ℕ)
    → offset + suc l ≤ 2 ^ 47
    → i32_rounds
        (as_i32 (offset / block_size))
        (as_i32 (sub64 (add64 offset (suc l)) 1 / block_size))
      ≡ (offset + l) / block_size - offset / block_size + 1
rounds_lem offset l fits = ground arith

-- For such a write the numbers of the loop do not wrap.
write_runs :
    (p n : Str) (offset x : ℕ) (xs : Bytes) (r : EntryRow) (m : FileMeta) (s : Db)
    (rows : List BlockRow)
    → Has p n r m s
    → offset + suc (length xs) ≤ 2 ^ 47
    → write_rounds
        ((offset + length xs) / block_size - offset / block_size + 1)
        p
        n
        offset
        (offset + suc (length xs))
        (x ∷ xs)
        (offset / block_size)
        (calm s)
      ≡ (ok tt, with_rows s rows)
    → write_range p n offset (x ∷ xs) (calm s)
      ≡ (ok tt, written p n (max m.size (offset + suc (length xs))) rows s)
unfolding write_range
write_runs p n offset x xs r m s rows h fits runs =
    let rounds = rounds_lem offset (length xs) fits in
    let start : as_i32 (offset / block_size) ≡ offset / block_size = ground arith in
    let end : add64 offset (suc (length xs)) ≡ offset + suc (length xs) = ground arith in
    bind_ok (getattr_primary p n) _ (calm s) (getattr_primary_lem p n r m s h)
    ∙ (λ i.
        transaction (rounds_and_size p n offset (x ∷ xs) m.size (rounds i) (start i) (end i))
          (calm s))
    ∙ transaction_runs
        (rounds_and_size p n offset (x ∷ xs) m.size
          ((offset + length xs) / block_size - offset / block_size + 1) (offset / block_size)
          (offset + suc (length xs)))
        s (written p n (max m.size (offset + suc (length xs))) rows s)
        (rounds_and_size_lem p n offset (x ∷ xs) m.size _ _ _ s rows runs)

-- Where no statement fails, write_range of some bytes that end at most at 2^47, to a name with an
-- entry, succeeds. Afterwards the file has the written bytes at their positions and its former
-- bytes at all others, its size is the larger of the former one and the end of the write, its time
-- is the server's, and the entries and the blocks of all other names are the same.
pub write_range-Wrote :
    (p n : Str) (offset : ℕ) (buf : Bytes) (r : EntryRow) (m : FileMeta) (s : Db)
    → 0 < length buf
    → offset + length buf ≤ 2 ^ 47
    → Has p n r m s
    → (s' : Db) × (write_range p n offset buf (calm s) ≡ (ok tt, calm s'))
      × Wrote p n offset buf r s s'
write_range-Wrote p n offset [] r m s some_bytes fits h = absurd (omega arith)
write_range-Wrote p n offset (x ∷ xs) r m s some_bytes fits h =
    let b : ℕ = offset / block_size in
    let e : ℕ = (offset + length xs) / block_size in
    let (rows, runs, w) =
      write_rounds_lem p n offset (x ∷ xs) fits s (e - b + 1) b s.tables.blocks h.table
        (omega arith) (omega arith) in
    (
      written p n (max m.size (offset + suc (length xs))) rows s,
      write_runs p n offset x xs r m s rows h fits runs,
      record {
        at_byte = λ i. ground (arith, w.spliced i);
        entry =
            find_entry-update_size p n (max m.size (offset + suc (length xs))) s.now
              s.tables.entries r h.found
            ∙ ap
                (λ size.
                  some (record r { size = max size (offset + suc (length xs)); mtime = s.now }))
                (row_to_meta-size r m h.attributes);
        entries_elsewhere = λ q u. find_entry-update_size_other p n q u _ s.now s.tables.entries;
        elsewhere = w.elsewhere;
        table = w.table;
      },
    )
