-- ===== src/Fs/Invariant.antt =====
-- The parts that the callbacks of src/fs.rs share, and the tables of inodes and of handles.
use pgfs.Prelude.{
  Bool-cases, inl, inr, ℕ, Bool, true, false, Option, none, some, Str, if◌then◌else◌,
}
use pgfs.Metrics.{Counter, check_liveness}
use pgfs.Inodes.{ino_for}
use pgfs.Inodes.Consistent.{IsConsistent, ino_for-IsConsistent}
use pgfs.Db.Rows.{Result, ok, err, panic}
use pgfs.Db.Exec.{Exec}
use pgfs.Fs.Handles.{HasHandles}
use pgfs.Fs.State.{
  Reply, PgFs, Handler, reply, count, on_result, attempt, on_ok, on_some, with_ino, with_path,
  resolved, with_resolved, on_handle, maybe_dump_state, callback_preamble,
}

abbrev pub IsSound : PgFs → Type 0
IsSound fs = IsConsistent fs.inodes × HasHandles fs.next_fh fs.open_handles fs.open_handles_by_ino

pub record Keeps (h : Handler) : Type 0 where
  pub at : (fs : PgFs) → IsSound fs → IsSound (h fs).0

pub Keeps-reply : (r : Reply) → Keeps (reply r)
Keeps-reply r = record { at = λ fs c. c }

pub Keeps-tell : (r : PgFs → Reply) → Keeps (λ fs. (fs, r fs))
Keeps-tell r = record { at = λ fs c. c }

pub Keeps-count : (c : Counter) (k : Handler) → Keeps k → Keeps (count c k)
Keeps-count c k h = record { at = λ fs s. h.at _ s }

module _ {A : Type 0} where
  pub Keeps-on_result :
      (r : Result A) (k : A → Handler) → ((a : A) → Keeps (k a)) → Keeps (on_result r k)
  Keeps-on_result (ok a) k h = h a
  Keeps-on_result (err e) k h = record { at = λ fs s. s }
  Keeps-on_result panic k h = record { at = λ fs s. s }

  pub Keeps-attempt :
      (m : Exec A) (k : Result A → Handler) → ((r : Result A) → Keeps (k r)) → Keeps (attempt m k)
  Keeps-attempt m k h = record { at = λ fs s. (h (m fs.db).0).at _ s }

  pub Keeps-on_ok : (m : Exec A) (k : A → Handler) → ((a : A) → Keeps (k a)) → Keeps (on_ok m k)
  Keeps-on_ok m k h = record { at = λ fs s. (Keeps-on_result (m fs.db).0 k h).at _ s }

  pub Keeps-on_some :
      (o : Option A) (missing : Handler) (k : A → Handler)
      → Keeps missing
      → ((a : A) → Keeps (k a))
      → Keeps (on_some o missing k)
  Keeps-on_some none missing k hm hk = hm
  Keeps-on_some (some a) missing k hm hk = hk a

pub Keeps-with_ino : (p : Str) (k : ℕ → Handler) → ((i : ℕ) → Keeps (k i)) → Keeps (with_ino p k)
Keeps-with_ino p k h = record {
  at = λ fs s. (h (ino_for p fs.inodes).0).at _ (ino_for-IsConsistent p fs.inodes s.0, s.1);
}

pub Keeps-with_path :
    (i : ℕ) (k : Str → Handler) → ((p : Str) → Keeps (k p)) → Keeps (with_path i k)
Keeps-with_path i k h = record { at = λ fs s. (Keeps-on_some _ _ k (Keeps-reply _) h).at fs s }

pub Keeps-resolved :
    (o : Option (Str × Str)) (missing : Handler) (k : Str → Str → Handler)
    → Keeps missing
    → ((p n : Str) → Keeps (k p n))
    → Keeps (resolved o missing k)
Keeps-resolved none missing k hm hk = hm
Keeps-resolved (some (p, n)) missing k hm hk = hk p n

pub Keeps-with_resolved :
    (i : ℕ) (n : Option Str) (missing : Handler) (k : Str → Str → Handler)
    → Keeps missing
    → ((p n : Str) → Keeps (k p n))
    → Keeps (with_resolved i n missing k)
Keeps-with_resolved i n missing k hm hk = record {
  at = λ fs s. (Keeps-resolved _ missing k hm hk).at fs s;
}

pub Keeps-on_handle :
    (i fh : ℕ) (k : Option ℕ → Handler)
    → ((id : Option ℕ) → Keeps (k id))
    → Keeps (on_handle i fh k)
Keeps-on_handle i fh k h = record { at = λ fs s. (h _).at fs s }

pub Keeps-if : (b : Bool) (h k : Handler) → Keeps h → Keeps k → Keeps (if b then h else k)
Keeps-if true h k hh hk = hh
Keeps-if false h k hh hk = hk

maybe_dump_state-IsSound :
    (now_ms : ℕ) (fs : PgFs) → IsSound fs → IsSound (maybe_dump_state now_ms fs)
unfolding maybe_dump_state
maybe_dump_state-IsSound now_ms fs s = elim (Bool-cases fs.dump_requested) [
  | inl e ↦ rw (e) s
  | inr e ↦ rw (e) s
]

pub if-IsSound :
    (b : Bool) (x y : PgFs × Reply) → IsSound x.0 → IsSound y.0 → IsSound (if b then x else y).0
if-IsSound true x y h k = h
if-IsSound false x y h k = k

pub Keeps-callback_preamble :
    (now_ms : ℕ) (k : Handler) → Keeps k → Keeps (callback_preamble now_ms k)
unfolding callback_preamble
Keeps-callback_preamble now_ms k h = record {
  at = λ fs s.
      let s' = maybe_dump_state-IsSound now_ms fs s in
      if-IsSound (check_liveness now_ms (maybe_dump_state now_ms fs).db.metrics).0 _ _ (h.at _ s')
        s';
}

pub ruleset keeps_rules = (
  Keeps-reply, Keeps-tell, Keeps-count, Keeps-attempt, Keeps-on_ok, Keeps-on_some, Keeps-with_ino,
  Keeps-with_path, Keeps-with_resolved, Keeps-on_handle, Keeps-if, Keeps-callback_preamble,
)
