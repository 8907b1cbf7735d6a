-- ===== src/Tests/MetricsTests.antt =====
-- The heartbeat check and the histogram (src/metrics.rs).
use pgfs.Prelude.{
  ℕ, str_key, codes, u64_mod, ◌≤◌, ◌+◌, ◌≡◌, refl, arith, false, List, map, [], ◌∷◌, some, ◌<◌,
}
use pgfs.Dict.{get}
use pgfs.Metrics.{check_liveness, heartbeat_deadline_ms, init}
use pgfs.Metrics.{Metrics, Counter}
use pgfs.Metrics.Report.{decimal, digits, summary_text, line, replica_fields, export}
use pgfs.Metrics.Report.Reading.{fields_of, name_of, all_counters, counter_lines-export}
use pgfs.Metrics.Histogram.{total_from}
use pgfs.Metrics.Liveness.{Event, beats, checks, run, last_beat_at, check_liveness-silent}
use pgfs.Metrics.Histogram.{summary, sum, scan, Percentiles, summary-skips_first}

abbrev quiet : List Event
quiet = beats 0 ∷ checks 5 ∷ beats 10000 ∷ checks 10001 ∷ []

stalled : (check_liveness 40001 (run init quiet)).0 ≡ false
unfolding run
stalled = refl

check_liveness-silent_example : last_beat_at 0 quiet + heartbeat_deadline_ms ≤ 40001
check_liveness-silent_example = check_liveness-silent quiet 40001 (omega arith) stalled

abbrev one_sample : List ℕ
one_sample = 1 ∷ 0 ∷ 0 ∷ 0 ∷ 0 ∷ 0 ∷ 0 ∷ []

abbrev one_summary : Percentiles
one_summary = record { total = 1; p50 = 1; p95 = 1; p99 = 1 }

summary-one_sample : summary one_sample ≡ some one_summary
unfolding summary sum scan
summary-one_sample = refl

summary-skips_first_example : (0 < one_summary.p50) × (0 < one_summary.p95) × (0 < one_summary.p99)
summary-skips_first_example = summary-skips_first one_sample one_summary refl summary-one_sample

one_sample_text :
    summary_text (codes "fuse") one_sample
    ≡ codes "fuse total=1 p50=<=100µs p95=<=100µs p99=<=100µs"
unfolding summary_text summary total_from scan digits
one_sample_text = refl

abbrev busy : Metrics
busy = record init { counts = λ c. 12034 }

busy_fits : (c : Counter) → busy.counts c < u64_mod
busy_fits c = omega arith

busy_reads : line replica_fields busy ≡ codes "metrics|replica|reads=12034 fallbacks=12034"
unfolding decimal digits
busy_reads = refl

counter_lines-export_example :
    (fields_of 3 (export one_sample one_sample busy).0
      ≡ map (λ c. (name_of c, busy.counts c)) all_counters)
    × ((c : Counter)
        → get (name_of c) (fields_of 3 (export one_sample one_sample busy).0)
          ≡ some (busy.counts c))
counter_lines-export_example = counter_lines-export one_sample one_sample busy busy_fits
