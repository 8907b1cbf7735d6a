-- ===== src/Metrics.antt =====
-- Observability (src/metrics.rs): the counters, the liveness heartbeat and the latency histograms.
-- The statics of the source are the fields of one record.
pub mod Histogram
pub mod Report
pub mod Liveness
pub mod Fallback
use mathlib.Core.Logic.{ite}
use pgfs.Prelude.{
  ℕ, ◌+◌, ◌*◌, Bool, true, false, ◌||◌, not, if◌then◌else◌, ltb, nat_beq, add64, u64_mod, ◌-◌,
}

pub data Counter : Type 0 where
  lookup_count getattr_count setattr_count read_count write_count create_count mkdir_count : Counter
  unlink_count rmdir_count rename_count readdir_count open_count fsync_count : Counter
  eio_count enoent_count eexist_count enotempty_count eisdir_count enotdir_count : Counter
  einval_count replica_read_count replica_fallback_count : Counter

unfoldable pub Counter-discrete : Discrete Counter
Counter-discrete = hlevel

pub record Metrics : Type 0 where
  pub counts : Counter → ℕ
  pub replica_fallback_warned : Bool
  pub liveness : ℕ
  pub last_beat_seen : ℕ
  pub beat_deadline_at : ℕ
  pub deadlock_detected : Bool

abbrev pub u64_max : ℕ
u64_max = u64_mod - 1

abbrev pub init : Metrics
init = record {
  counts = λ c. 0;
  replica_fallback_warned = false;
  liveness = 0;
  last_beat_seen = u64_max;
  beat_deadline_at = u64_max;
  deadlock_detected = false;
}

-- `COUNTER.fetch_add(1, Relaxed)`
unfoldable pub fetch_add : Counter → Metrics → Metrics
fetch_add c m = record m {
  counts = λ d. ite (Counter-discrete c d) (add64 (m.counts d) 1) (m.counts d);
}

abbrev pub heartbeat_period_ms : ℕ
heartbeat_period_ms = 10000

abbrev pub heartbeat_deadline_ms : ℕ
heartbeat_deadline_ms = 3 * heartbeat_period_ms

-- One round of the heartbeat thread.
unfoldable pub beat : Metrics → Metrics
beat m = record m { liveness = add64 m.liveness 1 }

-- `check_liveness`, at the monotonic time `now_ms`.
unfoldable pub check_liveness : ℕ → Metrics → Bool × Metrics
check_liveness now_ms m =
    if nat_beq m.last_beat_seen u64_max || not (nat_beq m.liveness m.last_beat_seen)
    then (
      true,
      record m {
        last_beat_seen = m.liveness;
        beat_deadline_at = add64 now_ms heartbeat_deadline_ms;
      },
    )
    else (ltb now_ms m.beat_deadline_at, m)

-- The metrics of `record_replica_fallback_if_configured`, and whether it logs at WARN.
unfoldable pub note_fallback : Metrics → Bool × Metrics
unfolding fetch_add
note_fallback m = (
  not m.replica_fallback_warned,
  record (fetch_add replica_fallback_count m) { replica_fallback_warned = true },
)

-- What a round of the export thread changes.
unfoldable pub export_round : Metrics → Metrics
export_round m = record m { replica_fallback_warned = false }
