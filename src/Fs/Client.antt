-- ===== src/Fs/Client.antt =====
-- A program that uses the file system while nothing fails: what the shared parts of the callbacks of
-- src/fs.rs do then.
pub mod Buffer
pub mod Writing
pub mod ReadBack
use pgfs.Prelude.{
  ℕ, ◌<◌, ◌≤◌, ◌≡◌, refl, ap, sym, ◌∙◌, Bool, true, false, [], List, arith, nat_beq, some, none,
  Option, Str,
}
use pgfs.Metrics.{Metrics, Counter, fetch_add, check_liveness, u64_max}
use pgfs.Db.Rows.{Result, ok}
use pgfs.Db.Exec.{Db, Exec}
use pgfs.Db.Content.Whole.{calm}
use pgfs.Fs.State.{PgFs, Handler, on_ok, maybe_dump_state, callback_preamble}

-- The heartbeat's counter is the one that the last check saw, and the deadline that this check set is
-- not before `limit`.
pub record IsLively (limit : ℕ) (m : Metrics) : Type 0 where
  pub seen : nat_beq m.last_beat_seen u64_max ≡ false
  pub same : m.liveness ≡ m.last_beat_seen
  pub deadline : limit ≤ m.beat_deadline_at

-- No dump is asked for, the heartbeat is as above, and no statement fails.
pub record IsQuiet (limit : ℕ) (dump_requested : Bool) (s : Db) : Type 0 where
  pub no_dump : dump_requested ≡ false
  pub lively : IsLively limit s.metrics
  pub no_faults : s.faults ≡ []

check_liveness-IsLively :
    (limit now_ms : ℕ) (m : Metrics)
    → IsLively limit m
    → now_ms < limit
    → check_liveness now_ms m ≡ (true, m)
unfolding check_liveness
check_liveness-IsLively limit now_ms m l t = ground (arith, l.seen, l.same, l.deadline)

fetch_add-IsLively :
    (c : Counter) (limit : ℕ) (m : Metrics) → IsLively limit m → IsLively limit (fetch_add c m)
unfolding fetch_add
fetch_add-IsLively c limit m l = record { seen = l.seen; same = l.same; deadline = l.deadline }

pub calm_lem : (s : Db) → s.faults ≡ [] → calm s ≡ s
calm_lem s e = ground (arith, e)

-- The preamble does nothing.
pub preamble_lem :
    (limit now_ms : ℕ) (k : Handler) (fs : PgFs)
    → IsQuiet limit fs.dump_requested fs.db
    → now_ms < limit
    → callback_preamble now_ms k fs ≡ k fs
unfolding callback_preamble maybe_dump_state
preamble_lem limit now_ms k fs q t =
    rw (q.no_dump, check_liveness-IsLively limit now_ms fs.db.metrics q.lively t) refl

-- A call is counted.
abbrev pub counted : Counter → PgFs → PgFs
counted c fs = record fs { db = record fs.db { metrics = fetch_add c fs.db.metrics } }

pub counted-IsQuiet :
    (c : Counter) (limit : ℕ) (fs : PgFs)
    → IsQuiet limit fs.dump_requested fs.db
    → IsQuiet limit (counted c fs).dump_requested (counted c fs).db
counted-IsQuiet c limit fs q = record {
  no_dump = q.no_dump;
  lively = fetch_add-IsLively c limit fs.db.metrics q.lively;
  no_faults = q.no_faults;
}

-- What an operation does on a server with no failure to come.
pub at_calm :
    {A : Type 0} (m : Exec A) (s : Db) (r : Result A × Db)
    → s.faults ≡ []
    → m (calm s) ≡ r
    → m s ≡ r
at_calm m s r e runs = ap m (sym (calm_lem s e)) ∙ runs
