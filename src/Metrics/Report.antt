-- ===== src/Metrics/Report.antt =====
-- The texts of the metrics (src/metrics.rs): the summary of a histogram, the lines of the periodic
-- export, and the state dump.
pub mod Fields
pub mod Reading
use pgfs.Prelude.{
  ℕ, zero, suc, ◌+◌, ◌/◌, ◌%◌, Option, none, some, List, [], ◌∷◌, ◌++◌, Str, codes, ltb,
  if◌then◌else◌,
}
use pgfs.Metrics.{
  Counter, Metrics, export_round, lookup_count, getattr_count, setattr_count, read_count,
  write_count, create_count, mkdir_count, unlink_count, rmdir_count, rename_count, readdir_count,
  open_count, fsync_count, eio_count, enoent_count, eexist_count, enotempty_count, eisdir_count,
  enotdir_count, einval_count, replica_read_count, replica_fallback_count,
}
use pgfs.Metrics.Histogram.{Percentiles, summary}

-- `{}` of a number, in at most `fuel` digits.
unfoldable pub digits : ℕ → ℕ → Str
digits zero n = []
digits (suc fuel) n =
    let rest = digits fuel (n / 10) in
    if ltb n 10 then (48 + n) ∷ [] else rest ++ (48 + n % 10) ∷ []

-- A `u64` has at most 20 digits.
unfoldable pub decimal : ℕ → Str
unfolding digits
decimal n = digits 20 n

abbrev pub bucket_label : ℕ → Str
bucket_label zero = codes "<=10"
bucket_label (suc zero) = codes "<=100"
bucket_label (suc (suc zero)) = codes "<=1k"
bucket_label (suc (suc (suc zero))) = codes "<=10k"
bucket_label (suc (suc (suc (suc zero)))) = codes "<=100k"
bucket_label (suc (suc (suc (suc (suc zero))))) = codes "<=1M"
bucket_label (suc (suc (suc (suc (suc (suc b)))))) = codes ">1M"

abbrev pub percentiles_text : Str → Option Percentiles → Str
percentiles_text label none = label ++ codes "=0 samples"
percentiles_text label (some p) =
    label
    ++ (codes " total="
        ++ (decimal p.total
            ++ (codes " p50="
                ++ (bucket_label p.p50
                    ++ (codes "µs p95="
                        ++ (bucket_label p.p95
                            ++ (codes "µs p99=" ++ (bucket_label p.p99 ++ codes "µs"))))))))

-- `Histogram::summary`
unfoldable pub summary_text : Str → List ℕ → Str
unfolding summary decimal
summary_text label counts = percentiles_text label (summary counts)

-- A line of counters, each with the text before its number.
abbrev pub line : List (Str × Counter) → Metrics → Str
line [] m = []
line ((text, c) ∷ fs) m = text ++ (decimal (m.counts c) ++ line fs m)

abbrev pub op_fields : List (Str × Counter)
op_fields =
    (codes "metrics|ops|lookup=", lookup_count)
    ∷ (codes " getattr=", getattr_count)
    ∷ (codes " setattr=", setattr_count)
    ∷ (codes " read=", read_count)
    ∷ (codes " write=", write_count)
    ∷ (codes " create=", create_count)
    ∷ (codes " mkdir=", mkdir_count)
    ∷ (codes " unlink=", unlink_count)
    ∷ (codes " rmdir=", rmdir_count)
    ∷ (codes " rename=", rename_count)
    ∷ (codes " readdir=", readdir_count)
    ∷ (codes " open=", open_count)
    ∷ (codes " fsync=", fsync_count)
    ∷ []

abbrev pub error_fields : List (Str × Counter)
error_fields =
    (codes "metrics|errors|eio=", eio_count)
    ∷ (codes " enoent=", enoent_count)
    ∷ (codes " eexist=", eexist_count)
    ∷ (codes " enotempty=", enotempty_count)
    ∷ (codes " eisdir=", eisdir_count)
    ∷ (codes " enotdir=", enotdir_count)
    ∷ (codes " einval=", einval_count)
    ∷ []

abbrev pub replica_fields : List (Str × Counter)
replica_fields =
    (codes "metrics|replica|reads=", replica_read_count)
    ∷ (codes " fallbacks=", replica_fallback_count)
    ∷ []

-- A round of the export thread, with the counts of FUSE_LATENCY and DB_LATENCY: what it changes, and
-- the lines that it logs.
unfoldable pub export : List ℕ → List ℕ → Metrics → List Str × Metrics
unfolding export_round decimal summary_text
export fuse_latency db_latency m = (
  line op_fields m
      ∷ line error_fields m
      ∷ line replica_fields m
      ∷ (codes "metrics|latency|fuse=" ++ summary_text (codes "fuse") fuse_latency)
      ∷ (codes "metrics|latency|db=" ++ summary_text (codes "db") db_latency)
      ∷ [],
  export_round m,
)

-- `state_dump`
unfoldable pub state_dump : ℕ → ℕ → Str → ℕ → List ℕ → List ℕ → Str
unfolding decimal summary_text
state_dump ino_cache_size next_ino db_status uptime_secs fuse_latency db_latency =
    codes "state|ino_cache="
    ++ (decimal ino_cache_size
        ++ (codes " next_ino="
            ++ (decimal next_ino
                ++ (codes " db="
                    ++ (db_status
                        ++ (codes " uptime_secs="
                            ++ (decimal uptime_secs
                                ++ (codes "\nstate|fuse_latency="
                                    ++ (summary_text (codes "fuse") fuse_latency
                                        ++ (codes "\nstate|db_latency="
                                            ++ summary_text (codes "db") db_latency))))))))))
