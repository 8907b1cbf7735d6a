-- ===== src/Fs/Latency.antt =====
-- The latency of the callbacks (src/metrics.rs `FuseLatencyGuard`, src/fs.rs): which of them hold the
-- guard, and what it records.
use pgfs.Prelude.{
  ℕ, ◌+◌, ◌<◌, ◌≡◌, refl, Bool, true, false, not, ◌&&◌, arith, List, [], ◌∷◌, length, get_or,
  if◌then◌else◌, u64_mod,
}
use pgfs.Metrics.Histogram.{record_us, histo_buckets, sum, record_all, record_all_lem, count_in}
use pgfs.Fs.State.{PgFs, Reply, aborted}
use pgfs.Fs.Session.{
  Call, lookups, getattrs, setattrs, opens, reads, writes, flushes, fsyncs, releases, creates,
  mkdirs, unlinks, rmdirs, renames, readdirs, dispatch,
}

-- `let _latency = metrics::FuseLatencyGuard::new();` is the first line of the callback.
abbrev pub has_guard : Call → Bool
has_guard (lookups t i n) = true
has_guard (getattrs t i) = true
has_guard (setattrs t i size) = true
has_guard (opens t i) = true
has_guard (reads t i fh offset size) = true
has_guard (writes t i fh offset buf) = true
has_guard (flushes t i fh) = false
has_guard (fsyncs t i fh) = true
has_guard (releases i fh) = false
has_guard (creates t wall i n) = true
has_guard (mkdirs t i n) = true
has_guard (unlinks t i n) = true
has_guard (rmdirs t i n) = true
has_guard (renames t i n j m flags) = true
has_guard (readdirs full t i offset) = true

-- `PgFs` with the counts of `FUSE_LATENCY`.
pub record Served : Type 0 where
  pub fs : PgFs
  pub fuse_latency : List ℕ

abbrev pub drop_latency : Bool → ℕ → List ℕ → List ℕ
drop_latency true us counts = record_us us counts
drop_latency false us counts = counts

abbrev pub is_aborted : Reply → Bool
is_aborted aborted = true
is_aborted r = false

-- A callback that takes `us` microseconds. A panic aborts the process, and then no guard is dropped.
unfoldable pub serve : ℕ × Call → Served → Reply × Served
unfolding dispatch record_us
serve (us, c) s =
    let (fs', r) = dispatch c s.fs in
    (
      r,
      record {
        fs = fs';
        fuse_latency = drop_latency (not (is_aborted r) && has_guard c) us s.fuse_latency;
      },
    )

-- The callbacks up to one that panics.
abbrev pub serve_all : List (ℕ × Call) → Served → Served
serve_all [] s = s
serve_all (c ∷ cs) s =
    let (r, s') = serve c s in let rest = serve_all cs s' in if is_aborted r then s' else rest

-- What is called when a file is closed.
abbrev pub is_close : Call → Bool
is_close (flushes t i fh) = true
is_close (releases i fh) = true
is_close (lookups t i n) = false
is_close (getattrs t i) = false
is_close (setattrs t i size) = false
is_close (opens t i) = false
is_close (reads t i fh offset size) = false
is_close (writes t i fh offset buf) = false
is_close (fsyncs t i fh) = false
is_close (creates t wall i n) = false
is_close (mkdirs t i n) = false
is_close (unlinks t i n) = false
is_close (rmdirs t i n) = false
is_close (renames t i n j m flags) = false
is_close (readdirs full t i offset) = false

-- The durations of the answered callbacks other than flush and release, up to a panic.
abbrev pub durations : List (ℕ × Call) → PgFs → List ℕ
durations [] fs = []
durations ((us, c) ∷ cs) fs =
    let (fs', r) = dispatch c fs in
    let rest = durations cs fs' in
    if is_aborted r then [] else if is_close c then rest else us ∷ rest

has_guard-is_close : (c : Call) → has_guard c ≡ not (is_close c)
has_guard-is_close (lookups t i n) = refl
has_guard-is_close (getattrs t i) = refl
has_guard-is_close (setattrs t i size) = refl
has_guard-is_close (opens t i) = refl
has_guard-is_close (reads t i fh offset size) = refl
has_guard-is_close (writes t i fh offset buf) = refl
has_guard-is_close (flushes t i fh) = refl
has_guard-is_close (fsyncs t i fh) = refl
has_guard-is_close (releases i fh) = refl
has_guard-is_close (creates t wall i n) = refl
has_guard-is_close (mkdirs t i n) = refl
has_guard-is_close (unlinks t i n) = refl
has_guard-is_close (rmdirs t i n) = refl
has_guard-is_close (renames t i n j m flags) = refl
has_guard-is_close (readdirs full t i offset) = refl

-- One callback and the rest.
record_step :
    (aborts close : Bool) (us : ℕ) (ds counts : List ℕ)
    → record_all (if aborts then [] else if close then ds else us ∷ ds) counts ≡ (
        if aborts
        then drop_latency (not aborts && not close) us counts
        else record_all ds (drop_latency (not aborts && not close) us counts))
record_step true close us ds counts = refl
record_step false true us ds counts = refl
record_step false false us ds counts = refl

fuse_latency-serve_all :
    (cs : List (ℕ × Call)) (s : Served)
    → (serve_all cs s).fuse_latency ≡ record_all (durations cs s.fs) s.fuse_latency
unfolding serve
fuse_latency-serve_all [] s = refl
fuse_latency-serve_all ((us, c) ∷ cs) s = ground (
  arith,
  record_step (is_aborted (dispatch c s.fs).1) (is_close c) us (durations cs (dispatch c s.fs).0)
      s.fuse_latency,
  fuse_latency-serve_all cs (serve (us, c) s).1,
  has_guard-is_close c,
)

-- Let FUSE_LATENCY have its seven buckets. After any callbacks, up to one that panics and with it
-- aborts the process, whatever they reply and whether or not they fail, each bucket of FUSE_LATENCY
-- has gained as many samples as there were callbacks other than flush and release that returned and
-- whose duration is above the threshold before the bucket and not above its own, and all buckets
-- together have gained one sample for each such callback, as long as the samples fit a u64.
pub serve_all_lem :
    (cs : List (ℕ × Call)) (s : Served)
    → length s.fuse_latency ≡ histo_buckets
    → sum s.fuse_latency + length (durations cs s.fs) < u64_mod
    → ((b : ℕ)
        → get_or (serve_all cs s).fuse_latency b 0
          ≡ get_or s.fuse_latency b 0 + count_in b (durations cs s.fs))
      × (sum (serve_all cs s).fuse_latency ≡ sum s.fuse_latency + length (durations cs s.fs))
serve_all_lem cs s h k =
    rw (fuse_latency-serve_all cs s) (record_all_lem (durations cs s.fs) s.fuse_latency h k)
