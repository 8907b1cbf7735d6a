-- ===== src/Fs/Session/Handlers.antt =====
-- The callbacks of src/fs.rs on attributes and open files, and the tables of inodes and of handles.
use pgfs.Prelude.{
  ℕ, ◌+◌, ◌<◌, not, ◌||◌, ltb, Bool-cases, Option, none, some, arith, Str, nat_key, inl, inr,
  Option-cases,
}
use pgfs.Dict.{get}
use pgfs.Block.{Bytes}
use pgfs.Handle
use pgfs.Handle.{HandleBuffer}
use pgfs.Db.Content.{truncate, is_empty}
use pgfs.Db.Rows.{Kind, file, dir, FileMeta, Result, ok, err, panic}
use pgfs.Fs.State.{
  PgFs, Handler, flush_handle, flush_taken, flushed, on_ok, reply, error, eisdir, done,
}
use pgfs.Fs.Attributes.{lookup, getattr_of, setattr, reply_attr, reply_root, resize_to}
use pgfs.Fs.Files.{
  open_ino, read, write, flush, fsync, release, flush_silently, write_at, write_through, flush_at,
  buffered, unless_panic,
}
use pgfs.Fs.Handles.{
  put-HasHandles, remove-HasHandles, next-HasHandles, put_ino-HasHandles, filterb-HasHandles,
}
use pgfs.Fs.Invariant.{
  Keeps, IsSound, Keeps-reply, Keeps-on_result, Keeps-on_ok, Keeps-with_path, Keeps-count,
  Keeps-callback_preamble, keeps_rules,
}

pub lookup-Keeps : (t i : ℕ) (n : Option Str) → Keeps (lookup t i n)
unfolding lookup
lookup-Keeps t i n = search keeps_rules depth 9

reply_attr-Keeps : (i : ℕ) (o : Option FileMeta) → Keeps (reply_attr i o)
unfolding reply_attr
reply_attr-Keeps i none = Keeps-reply _
reply_attr-Keeps i (some m) = record { at = λ fs s. s }

reply_root-Keeps : Keeps reply_root
unfolding reply_root
reply_root-Keeps = record { at = λ fs s. s }

pub getattr_of-Keeps : (t i : ℕ) → Keeps (getattr_of t i)
unfolding getattr_of
getattr_of-Keeps t i = search (keeps_rules, reply_attr-Keeps, reply_root-Keeps) depth 9

Keeps-kind :
    (kind : Kind) (h k : Handler) → Keeps h → Keeps k → Keeps (elim kind [ dir ↦ h | file ↦ k ])
Keeps-kind dir h k hh hk = hh
Keeps-kind file h k hh hk = hk

resize_to-Keeps :
    (p n : Str) (m : FileMeta) (size : Option ℕ) (k : Handler)
    → Keeps k
    → Keeps (resize_to p n m size k)
unfolding resize_to
resize_to-Keeps p n m none k h = h
resize_to-Keeps p n m (some size) k h =
    Keeps-kind m.kind (reply (error eisdir)) (on_ok (truncate p n size) λ _. k)
      (Keeps-reply (error eisdir))
      (Keeps-on_ok {A = Unit {0}} (truncate p n size) (λ _. k) (λ _. h))

pub setattr-Keeps : (t i : ℕ) (size : Option ℕ) → Keeps (setattr t i size)
unfolding setattr
setattr-Keeps t i size =
    search (keeps_rules, reply_attr-Keeps, reply_root-Keeps, resize_to-Keeps) depth 12

pub open_ino-Keeps : (t i : ℕ) → Keeps (open_ino t i)
unfolding open_ino
open_ino-Keeps t i = Keeps-callback_preamble _ _ (
    Keeps-count _ _ (
      Keeps-with_path _ _ λ path. record {
        at = λ fs s. (
          s.0,
          put_ino-HasHandles (fs.next_fh + 1) _ _ (next-HasHandles _ _ _ s.1 _) i fs.next_fh
              s.1.positive (omega arith),
        );
      }))

flushed-IsSound :
    (fh : ℕ) (h : HandleBuffer) (r : Result (Unit {0})) (fs : PgFs)
    → 0 < fh
    → fh < fs.next_fh
    → IsSound fs
    → IsSound (flushed fh h r fs).1
flushed-IsSound fh h (ok _) fs pos low s = (s.0, put-HasHandles _ _ _ s.1 fh _ pos low)
flushed-IsSound fh h (err e) fs pos low s = s
flushed-IsSound fh h panic fs pos low s = s

flush_taken-IsSound :
    (fh : ℕ) (h : HandleBuffer) (fs : PgFs)
    → 0 < fh
    → fh < fs.next_fh
    → IsSound fs
    → IsSound (flush_taken fh h fs).1
unfolding flush_taken
flush_taken-IsSound fh h fs pos low s =
    elim (Bool-cases (not (is_empty h.dirty_blocks) || ltb 0 h.max_size)) [
      | inl e ↦ rw (e) (flushed-IsSound fh h _ _ pos low s)
      | inr e ↦ rw (e) (s.0, put-HasHandles _ _ _ s.1 fh h pos low)
    ]

flush_handle-IsSound : (fh : ℕ) (fs : PgFs) → IsSound fs → IsSound (flush_handle fh fs).1
unfolding flush_handle
flush_handle-IsSound fh fs s = elim (Option-cases (get fh fs.open_handles)) [
  | inl e ↦ rw (e, flush_handle) s
  | inr (h, e) ↦
      rw (e, flush_handle)
        (flush_taken-IsSound fh h _ (s.1.handle fh h e).0 (s.1.handle fh h e).1
          (s.0, remove-HasHandles _ _ _ s.1 fh))
]

unless_panic-Keeps : (r : Result (Unit {0})) (k : Handler) → Keeps k → Keeps (unless_panic r k)
unless_panic-Keeps (ok _) k h = h
unless_panic-Keeps (err _) k h = h
unless_panic-Keeps panic k h = Keeps-reply _

flush_silently-Keeps : (fh : Option ℕ) (k : Handler) → Keeps k → Keeps (flush_silently fh k)
unfolding flush_silently
flush_silently-Keeps none k h = h
flush_silently-Keeps (some fh) k h = record {
  at = λ fs s. (unless_panic-Keeps (flush_handle fh fs).0 k h).at _ (flush_handle-IsSound fh fs s);
}

pub read-Keeps : (t i fh offset size : ℕ) → Keeps (read t i fh offset size)
unfolding read
read-Keeps t i fh offset size = search (keeps_rules, flush_silently-Keeps) depth 12

write_through-Keeps : (i offset : ℕ) (buf : Bytes) → Keeps (write_through i offset buf)
unfolding write_through
write_through-Keeps i offset buf = search keeps_rules

buffered-IsSound :
    (fh : ℕ) (buf : Bytes) (h : Option HandleBuffer) (fs : PgFs)
    → 0 < fh
    → fh < fs.next_fh
    → IsSound fs
    → IsSound (buffered fh buf h fs).0
buffered-IsSound fh buf none fs pos low s = s
buffered-IsSound fh buf (some h) fs pos low s = (s.0, put-HasHandles _ _ _ s.1 fh h pos low)

write_at-Keeps : (i offset : ℕ) (buf : Bytes) (fh : Option ℕ) → Keeps (write_at i offset buf fh)
unfolding write_at
write_at-Keeps i offset buf none = write_through-Keeps i offset buf
write_at-Keeps i offset buf (some fh) = record {
  at = λ fs s. elim (Option-cases (get fh fs.open_handles)) [
    | inl e ↦ rw (e, write_at) ((write_through-Keeps i offset buf).at fs s)
    | inr (h, e) ↦
        rw (e, write_at)
          (buffered-IsSound fh buf (Handle.write offset buf h) fs (s.1.handle fh h e).0
            (s.1.handle fh h e).1 s)
  ];
}

pub write-Keeps : (t i fh offset : ℕ) (buf : Bytes) → Keeps (write t i fh offset buf)
unfolding write
write-Keeps t i fh offset buf = search (keeps_rules, write_at-Keeps)

flush_at-Keeps : (fh : Option ℕ) → Keeps (flush_at fh)
unfolding flush_at
flush_at-Keeps none = record { at = λ fs s. s }
flush_at-Keeps (some fh) = record {
  at = λ fs s.
      (Keeps-on_result (flush_handle fh fs).0 (λ _. reply done) (λ _. Keeps-reply done)).at _
        (flush_handle-IsSound fh fs s);
}

pub flush-Keeps : (t i fh : ℕ) → Keeps (flush t i fh)
unfolding flush
flush-Keeps t i fh = search (keeps_rules, flush_at-Keeps)

pub fsync-Keeps : (t i fh : ℕ) → Keeps (fsync t i fh)
unfolding fsync
fsync-Keeps t i fh = search (keeps_rules, flush_at-Keeps)

pub release-Keeps : (i fh : ℕ) → Keeps (release i fh)
unfolding release
release-Keeps i fh = record {
  at = λ fs s.
      (flush_silently-Keeps (some _) _ (record {
        at = λ gs r. (r.0, filterb-HasHandles _ _ _ (remove-HasHandles _ _ _ r.1 _) _);
      })).at
        fs s;
}
