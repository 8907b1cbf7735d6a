-- ===== src/Fs/Files.antt =====
-- The callbacks on open files (src/fs.rs): `open`, `read`, `write`, `flush`, `fsync`, `release`.
use pgfs.Prelude.{
  ℕ, ◌+◌, ◌%◌, not, ◌&&◌, Option, none, some, nat_key, nat_beq, u32_mod, filterb, length,
}
use pgfs.Dict.{get, put, remove}
use pgfs.Path.{split_path}
use pgfs.Block.{Bytes}
use pgfs.Handle.{HandleBuffer}
use pgfs.Handle
use pgfs.Metrics.{read_count, write_count, open_count, fsync_count}
use pgfs.Db.Rows.{Result, ok, err, panic}
use pgfs.Db.Content.{read_range, write_range}
use pgfs.Fs.State.{
  enoent, bytes, written, opened, done, error, aborted, Handler, reply, count, on_result, on_ok,
  on_some, with_path, callback_preamble, flush_handle, handle_id, on_handle, fresh_handle,
}

-- `open`
unfoldable pub open_ino : ℕ → ℕ → Handler
open_ino now_ms ino = callback_preamble now_ms (
    count open_count (
      with_path ino λ path fs.
        let (parent, name) = split_path path in
        (
          record fs {
            next_fh = fs.next_fh + 1;
            open_handles = put fs.next_fh (fresh_handle parent name) fs.open_handles;
            open_handles_by_ino = put ino fs.next_fh fs.open_handles_by_ino;
          },
          opened fs.next_fh,
        )))

-- `let _ = self.flush_handle(h)`: an error is dropped, a panic is not.
abbrev pub unless_panic : Result (Unit {0}) → Handler → Handler
unless_panic (ok _) k = k
unless_panic (err _) k = k
unless_panic panic k = reply aborted

unfoldable pub flush_silently : Option ℕ → Handler → Handler
unfolding flush_handle
flush_silently none k fs = k fs
flush_silently (some fh) k fs = let (r, fs') = flush_handle fh fs in unless_panic r k fs'

-- `read`
unfoldable pub read : ℕ → ℕ → ℕ → ℕ → ℕ → Handler
unfolding flush_silently
read now_ms ino fh offset size = callback_preamble now_ms (
    count read_count (
      on_handle ino fh λ id. flush_silently id (
        with_path ino λ path.
          let (parent, name) = split_path path in
          on_ok (read_range parent name offset size)
            λ found. on_some found (reply (error enoent)) λ buf. reply (bytes buf))))

-- A write that goes to the database, where there is no buffer.
unfoldable pub write_through : ℕ → ℕ → Bytes → Handler
write_through ino offset buf = with_path ino λ path.
    let (parent, name) = split_path path in
    on_ok (write_range parent name offset buf) λ _. reply (written (length buf % u32_mod))

abbrev pub buffered : ℕ → Bytes → Option HandleBuffer → Handler
buffered fh buf none fs = (fs, aborted)
buffered fh buf (some h) fs =
    (record fs { open_handles = put fh h fs.open_handles }, written (length buf % u32_mod))

unfoldable pub write_at : ℕ → ℕ → Bytes → Option ℕ → Handler
unfolding get write_through
write_at ino offset buf none fs = write_through ino offset buf fs
write_at ino offset buf (some fh) fs = elim (get fh fs.open_handles) [
  | none ↦ write_through ino offset buf fs
  | some h ↦ buffered fh buf (Handle.write offset buf h) fs
]

-- `write`
unfoldable pub write : ℕ → ℕ → ℕ → ℕ → Bytes → Handler
unfolding write_at
write now_ms ino fh offset buf =
    callback_preamble now_ms (count write_count (on_handle ino fh (write_at ino offset buf)))

unfoldable pub flush_at : Option ℕ → Handler
unfolding flush_handle
flush_at none fs = (fs, done)
flush_at (some fh) fs = let (r, fs') = flush_handle fh fs in on_result r (λ _. reply done) fs'

-- `flush`, which is not counted
unfoldable pub flush : ℕ → ℕ → ℕ → Handler
unfolding flush_at
flush now_ms ino fh = callback_preamble now_ms (on_handle ino fh flush_at)

-- `fsync`
unfoldable pub fsync : ℕ → ℕ → ℕ → Handler
unfolding flush_at
fsync now_ms ino fh = callback_preamble now_ms (count fsync_count (on_handle ino fh flush_at))

abbrev pub or_zero : Option ℕ → ℕ
or_zero none = 0
or_zero (some fh) = fh

-- `release`: no preamble, and handle 0 where none is found
unfoldable pub release : ℕ → ℕ → Handler
unfolding flush_silently remove
release ino fh fs =
    let id = or_zero (handle_id ino fh fs) in
    flush_silently (some id)
      (λ fs'. (
        record fs' {
          open_handles = remove id fs'.open_handles;
          open_handles_by_ino =
              filterb (λ kv. not (nat_beq kv.0 ino) && not (nat_beq kv.1 id))
                fs'.open_handles_by_ino;
        },
        done,
      ))
      fs
