-- ===== src/Fs/ReadOnly/Parts.antt =====
-- The parts that the callbacks of src/fs.rs share, where they only read.
use pgfs.Prelude.{
  ℕ, ◌≡◌, ◌∙◌, refl, Bool, true, false, Option, none, some, Str, if◌then◌else◌, Bool-cases, inl,
  inr,
}
use pgfs.Metrics.{Counter, check_liveness}
use pgfs.Inodes.{ino_for}
use pgfs.Db.Rows.{Tables, Result, ok, err, panic}
use pgfs.Db.Exec.{Exec}
use pgfs.Db.Atomic.Whole.{Reads}
use pgfs.Fs.State.{
  Reply, PgFs, Handler, reply, count, on_result, on_ok, on_some, with_ino, with_path, resolved,
  with_resolved, maybe_dump_state, callback_preamble,
}
use pgfs.Db.ReadOnly.{replica_state-Reads, getattr-Reads, list-Reads}

-- The callback leaves the tables of the primary as they are.
pub record LeavesTables (h : Handler) : Type 0 where
  pub at : (fs : PgFs) → (h fs).0.db.tables ≡ fs.db.tables

pub LeavesTables-reply : (r : Reply) → LeavesTables (reply r)
LeavesTables-reply r = record { at = λ fs. refl }

pub LeavesTables-count : (c : Counter) (k : Handler) → LeavesTables k → LeavesTables (count c k)
LeavesTables-count c k h = record { at = λ fs. h.at _ }

module _ {A : Type 0} where
  pub LeavesTables-on_result :
      (r : Result A) (k : A → Handler)
      → ((a : A) → LeavesTables (k a))
      → LeavesTables (on_result r k)
  LeavesTables-on_result (ok a) k h = h a
  LeavesTables-on_result (err e) k h = record { at = λ fs. refl }
  LeavesTables-on_result panic k h = record { at = λ fs. refl }

  pub LeavesTables-on_ok :
      (m : Exec A) (k : A → Handler)
      → Reads m
      → ((a : A) → LeavesTables (k a))
      → LeavesTables (on_ok m k)
  LeavesTables-on_ok m k r h = record {
    at = λ fs. (LeavesTables-on_result (m fs.db).0 k h).at _ ∙ r.at fs.db;
  }

  pub LeavesTables-on_some :
      (o : Option A) (missing : Handler) (k : A → Handler)
      → LeavesTables missing
      → ((a : A) → LeavesTables (k a))
      → LeavesTables (on_some o missing k)
  LeavesTables-on_some none missing k hm hk = hm
  LeavesTables-on_some (some a) missing k hm hk = hk a

pub LeavesTables-with_ino :
    (p : Str) (k : ℕ → Handler) → ((i : ℕ) → LeavesTables (k i)) → LeavesTables (with_ino p k)
LeavesTables-with_ino p k h = record { at = λ fs. (h (ino_for p fs.inodes).0).at _ }

pub LeavesTables-with_path :
    (i : ℕ) (k : Str → Handler) → ((p : Str) → LeavesTables (k p)) → LeavesTables (with_path i k)
LeavesTables-with_path i k h = record {
  at = λ fs. (LeavesTables-on_some _ _ k (LeavesTables-reply _) h).at fs;
}

pub LeavesTables-resolved :
    (o : Option (Str × Str)) (missing : Handler) (k : Str → Str → Handler)
    → LeavesTables missing
    → ((p n : Str) → LeavesTables (k p n))
    → LeavesTables (resolved o missing k)
LeavesTables-resolved none missing k hm hk = hm
LeavesTables-resolved (some (p, n)) missing k hm hk = hk p n

pub LeavesTables-with_resolved :
    (i : ℕ) (n : Option Str) (missing : Handler) (k : Str → Str → Handler)
    → LeavesTables missing
    → ((p n : Str) → LeavesTables (k p n))
    → LeavesTables (with_resolved i n missing k)
LeavesTables-with_resolved i n missing k hm hk = record {
  at = λ fs. (LeavesTables-resolved _ missing k hm hk).at fs;
}

pub LeavesTables-if :
    (b : Bool) (h k : Handler) → LeavesTables h → LeavesTables k → LeavesTables (if b then h else k)
LeavesTables-if true h k hh hk = hh
LeavesTables-if false h k hh hk = hk

dump-tables : (t : ℕ) (fs : PgFs) → (maybe_dump_state t fs).db.tables ≡ fs.db.tables
unfolding maybe_dump_state
dump-tables t fs = elim (Bool-cases fs.dump_requested) [
  | inl e ↦ rw (e) ((replica_state-Reads t).at fs.db)
  | inr e ↦ rw (e) refl
]

if-tables :
    (b : Bool) (x y : PgFs × Reply) (t : Tables)
    → x.0.db.tables ≡ t
    → y.0.db.tables ≡ t
    → (if b then x else y).0.db.tables ≡ t
if-tables true x y t h k = h
if-tables false x y t h k = k

pub LeavesTables-callback_preamble :
    (t : ℕ) (k : Handler) → LeavesTables k → LeavesTables (callback_preamble t k)
unfolding callback_preamble
LeavesTables-callback_preamble t k h = record {
  at = λ fs.
      if-tables (check_liveness t (maybe_dump_state t fs).db.metrics).0 _ _ fs.db.tables
        (h.at _ ∙ dump-tables t fs) (dump-tables t fs);
}

pub ruleset leaves_rules = (
  LeavesTables-reply, LeavesTables-count, LeavesTables-on_ok, LeavesTables-on_some,
  LeavesTables-with_ino, LeavesTables-with_path, LeavesTables-with_resolved, LeavesTables-if,
  LeavesTables-callback_preamble, getattr-Reads, list-Reads,
)

pub LeavesTables-tell : (r : PgFs → Reply) → LeavesTables (λ fs. (fs, r fs))
LeavesTables-tell r = record { at = λ fs. refl }
