-- ===== src/Fs/Failure.antt =====
-- A flush that fails (src/fs.rs `PgFs::flush_handle`).
use pgfs.Prelude.{
  ℕ, ◌≡◌, refl, sym, ap, ◌∙◌, Bool, true, false, not, ◌||◌, none, some, arith, ltb, if◌then◌else◌,
  inl, inr, Option-cases, nat_key,
}
use pgfs.Dict.{Dict, get, put, remove, get-remove}
use pgfs.Handle.{HandleBuffer}
use pgfs.Db.Rows.{Error, Result, ok, err, panic}
use pgfs.Db.Content.{write_blocks_batch, is_empty}
use pgfs.Fs.State.{PgFs, flush_handle, flush_taken, flushed}

flushed-err :
    (fh : ℕ) (h : HandleBuffer) (r : Result (Unit {0})) (fs : PgFs) (e : Error)
    → (flushed fh h r fs).0 ≡ err e
    → (flushed fh h r fs).1.open_handles ≡ fs.open_handles
flushed-err fh h (ok _) fs e k = absurd cc
flushed-err fh h (err x) fs e k = refl
flushed-err fh h panic fs e k = absurd cc

if-err :
    (c : Bool) (x y : Result (Unit {0}) × PgFs) (e : Error) (m : Dict ℕ HandleBuffer)
    → (x.0 ≡ err e → x.1.open_handles ≡ m)
    → (y.0 ≡ err e → y.1.open_handles ≡ m)
    → (if c then x else y).0 ≡ err e
    → (if c then x else y).1.open_handles ≡ m
if-err true x y e m h k r = h r
if-err false x y e m h k r = k r

flush_taken-err :
    (fh : ℕ) (h : HandleBuffer) (fs : PgFs) (e : Error)
    → (flush_taken fh h fs).0 ≡ err e
    → (flush_taken fh h fs).1.open_handles ≡ fs.open_handles
unfolding flush_taken
flush_taken-err fh h fs e =
    if-err (not (is_empty h.dirty_blocks) || ltb 0 h.max_size)
      (flushed fh h (write_blocks_batch h.parent h.name h.dirty_blocks h.max_size fs.db).0
        (record fs { db = (write_blocks_batch h.parent h.name h.dirty_blocks h.max_size fs.db).1 }))
      (ok tt, record fs { open_handles = put fh h fs.open_handles }) e fs.open_handles
      (flushed-err fh h _ _ e) (λ k. absurd cc)

flush_handle_closed :
    (fh : ℕ) (fs : PgFs) → get fh fs.open_handles ≡ none → flush_handle fh fs ≡ (ok tt, fs)
unfolding flush_handle
flush_handle_closed fh fs e = rw (e, flush_handle) refl

pub flush_handle_open :
    (fh : ℕ) (fs : PgFs) (h : HandleBuffer)
    → get fh fs.open_handles ≡ some h
    → flush_handle fh fs ≡ flush_taken fh h (record fs { open_handles = remove fh fs.open_handles })
unfolding flush_handle
flush_handle_open fh fs h e = rw (e, flush_handle) refl

removed : (fh : ℕ) (m : Dict ℕ HandleBuffer) → get fh (remove fh m) ≡ none
removed fh m = ground (arith, get-remove fh fh m)

-- A failed flush of an open handle leaves it closed.
flush_handle_lost :
    (fh : ℕ) (fs : PgFs) (e : Error)
    → (flush_handle fh fs).0 ≡ err e
    → get fh (flush_handle fh fs).1.open_handles ≡ none
flush_handle_lost fh fs e k = elim (Option-cases (get fh fs.open_handles)) [
  | inl closed ↦ absurd (cc (ap (λ x. x.0) (flush_handle_closed fh fs closed), k))
  | inr (h, opened) ↦
      let same = flush_handle_open fh fs h opened in
      ap (λ x. get fh x.1.open_handles) same
      ∙ ap (get fh) (flush_taken-err fh h _ e (sym (ap (λ x. x.0) same) ∙ k))
      ∙ removed fh fs.open_handles
]

-- A flush of a handle that fails loses the handle: it is no longer open, and a further flush of it
-- reports success and does nothing.
pub flush_handle-err :
    (fh : ℕ) (fs : PgFs) (e : Error)
    → (flush_handle fh fs).0 ≡ err e
    → (get fh (flush_handle fh fs).1.open_handles ≡ none)
      × (flush_handle fh (flush_handle fh fs).1 ≡ (ok tt, (flush_handle fh fs).1))
flush_handle-err fh fs e k =
    let lost = flush_handle_lost fh fs e k in
    (lost, flush_handle_closed fh (flush_handle fh fs).1 lost)
