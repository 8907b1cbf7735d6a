-- ===== src/Fs/Client/Writing.antt =====
-- A program that writes to a new file through a handle, and reads the file back (src/fs.rs `write` and
-- `read`).
use pgfs.Prelude.{
  ℕ, ◌+◌, ◌%◌, ◌^◌, ◌≤◌, ◌<◌, ◌≡◌, ◌∙◌, refl, ap, sym, true, false, some, [], ◌∷◌, arith, Str,
  length, nat_beq, nat_key, u32_mod, inl, inr, Bool-cases, not, ◌||◌, ltb,
}
use pgfs.Dict.{get, put, remove, get-put}
use pgfs.Path.{join}
use pgfs.Path.RoundTrip.{IsName, split_path-join}
use pgfs.Block.{Bytes}
use pgfs.Handle
use pgfs.Handle.{HandleBuffer}
use pgfs.Metrics.{write_count, read_count}
use pgfs.Inodes.{path_of_ino}
use pgfs.Db.Rows.{ok}
use pgfs.Db.Exec.{Db}
use pgfs.Db.Content.{read_range, write_blocks_batch, is_empty}
use pgfs.Db.Content.Whole.{calm}
use pgfs.Db.Content.File.{read_at, write_at, Holds, read_range-Holds}
use pgfs.Fs.State.{PgFs, bytes, written, flush_handle, flush_taken, flushed, handle_id}
use pgfs.Fs.Failure.{flush_handle_open}
use pgfs.Fs.Files
use pgfs.Fs.Files.{buffered, flush_silently}
use pgfs.Fs.Client.{IsQuiet, counted, counted-IsQuiet, preamble_lem, at_calm, calm_lem}
use pgfs.Fs.Client.Buffer.{Buffered, write-Buffered, flush-Holds, Holds_same}

-- The handle `fh` is open on the new file `n` in `p`, of the inode `ino`, with the buffer of `f`.
pub record IsWriting (limit : ℕ) (p n : Str) (ino fh : ℕ) (f : Bytes) (fs : PgFs) : Type 0 where
  pub quiet : IsQuiet limit fs.dump_requested fs.db
  pub empty : Holds p n [] fs.db
  pub path : path_of_ino ino fs.inodes ≡ some (join p n)
  pub handle : HandleBuffer
  pub held : get fh fs.open_handles ≡ some handle
  pub buffer : Buffered p n f handle

nil_lem : (f : Bytes) → length f ≡ 0 → f ≡ []
nil_lem [] e = refl
nil_lem (x ∷ f) e = absurd (omega (arith, e))

write_at_held :
    (ino offset fh : ℕ) (buf : Bytes) (h : HandleBuffer) (fs : PgFs)
    → get fh fs.open_handles ≡ some h
    → Files.write_at ino offset buf (some fh) fs ≡ buffered fh buf (Handle.write offset buf h) fs
unfolding Files.write_at
write_at_held ino offset fh buf h fs e = rw (e, Files.write_at) refl

module _ (limit : ℕ) (p n : Str) (ino fh : ℕ) (some_handle : nat_beq fh 0 ≡ false) (f : Bytes)
    (fs : PgFs) (w : IsWriting limit p n ino fh f fs) where
  abbrev after_write : HandleBuffer → PgFs
  after_write h = record (counted write_count fs) { open_handles = put fh h fs.open_handles }

  write_runs :
      (now_ms offset : ℕ) (buf : Bytes) (h : HandleBuffer)
      → now_ms < limit
      → Handle.write offset buf w.handle ≡ some h
      → Files.write now_ms ino fh offset buf fs ≡ (after_write h, written (length buf % u32_mod))
  unfolding Files.write handle_id
  write_runs now_ms offset buf h t runs =
      preamble_lem limit now_ms _ fs w.quiet t
      ∙ rw
          (
            some_handle,
            write_at_held ino offset fh buf w.handle (counted write_count fs) w.held,
            runs,
          )
          refl

  pub write-IsWriting :
      (now_ms offset : ℕ) (buf : Bytes)
      → now_ms < limit
      → 0 < length buf
      → offset + length buf ≤ 2 ^ 47
      → (fs' : PgFs) × (Files.write now_ms ino fh offset buf fs
          ≡ (fs', written (length buf % u32_mod)))
        × IsWriting limit p n ino fh (write_at offset buf f) fs'
  write-IsWriting now_ms offset buf t some_bytes fits =
      let (h, runs, b) = write-Buffered p n f w.handle w.buffer offset buf some_bytes fits in
      (
        after_write h,
        write_runs now_ms offset buf h t runs,
        record {
          quiet = counted-IsQuiet write_count limit fs w.quiet;
          empty = Holds_same p n [] fs.db _ refl w.empty;
          path = w.path;
          handle = h;
          held = ground (arith, get-put fh fh h fs.open_handles);
          buffer = b;
        },
      )

  abbrev taken : PgFs
  taken = record (counted read_count fs) { open_handles = remove fh fs.open_handles }

  flush_taken_runs :
      (s' : Db)
      → 0 < length f
      → write_blocks_batch p n w.handle.dirty_blocks w.handle.max_size (calm taken.db)
        ≡ (ok tt, calm s')
      → flush_taken fh w.handle taken ≡ flushed fh w.handle (ok tt) (record taken { db = calm s' })
  unfolding flush_taken
  flush_taken_runs s' some_bytes runs =
      let writes : (not (is_empty w.handle.dirty_blocks) || ltb 0 w.handle.max_size) ≡ true =
        ground (arith, w.buffer.size) in
      let batch : write_blocks_batch w.handle.parent w.handle.name w.handle.dirty_blocks
            w.handle.max_size taken.db
          ≡ (ok tt, calm s') =
        rw (w.buffer.parent, w.buffer.name)
          (at_calm (write_blocks_batch p n w.handle.dirty_blocks w.handle.max_size) taken.db _
            w.quiet.no_faults runs) in
      rw (writes, batch) refl

  flush_taken_nothing :
      length f ≡ 0
      → flush_taken fh w.handle taken
        ≡ (ok tt, record taken { open_handles = put fh w.handle taken.open_handles })
  unfolding flush_taken
  flush_taken_nothing e =
      let idle : (not (is_empty w.handle.dirty_blocks) || ltb 0 w.handle.max_size) ≡ false =
        ground (arith, w.buffer.size, w.buffer.unused e) in
      rw (idle) refl

  -- The file is in the database.
  flush_handle_runs :
      (fs' : PgFs) × (flush_handle fh (counted read_count fs) ≡ (ok tt, fs'))
      × Holds p n f fs'.db
      × (path_of_ino ino fs'.inodes ≡ some (join p n))
      × (fs'.db.faults ≡ [])
  flush_handle_runs =
      let taken_from = flush_handle_open fh (counted read_count fs) w.handle w.held in
      elim (Bool-cases (ltb 0 (length f))) [
        | inl e ↦
            let (s', runs, h) =
              flush-Holds p n f w.handle w.buffer taken.db (ground (arith, w.buffer.size))
                (Holds_same p n [] fs.db taken.db refl w.empty) in
            (
              _,
              taken_from ∙ flush_taken_runs s' (ground arith) runs,
              Holds_same p n f s' _ refl h,
              w.path,
              refl,
            )
        | inr e ↦ (
          _,
          taken_from ∙ flush_taken_nothing (ground arith),
          rw (nil_lem f (ground arith)) (Holds_same p n [] fs.db taken.db refl w.empty),
          w.path,
          w.quiet.no_faults,
        )
      ]

  -- The program reads what it wrote.
  pub read_back :
      (now_ms offset size : ℕ)
      → IsName n
      → now_ms < limit
      → offset + size ≤ 2 ^ 47
      → (Files.read now_ms ino fh offset size fs).1 ≡ bytes (read_at offset size f)
  unfolding Files.read flush_silently handle_id
  read_back now_ms offset size name t fits =
      let (fs', flushes, h, path, calm_) = flush_handle_runs in
      ap (λ r. r.1) (preamble_lem limit now_ms _ fs w.quiet t)
      ∙ rw (some_handle, flushes)
          (let reads : (read_range p n offset size fs'.db).0 ≡ ok (some (read_at offset size f)) =
              ap (λ s. (read_range p n offset size s).0) (sym (calm_lem fs'.db calm_))
              ∙ read_range-Holds p n f fs'.db h offset size fits in
            rw (path, split_path-join p n name, reads) refl)
