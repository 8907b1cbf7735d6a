-- ===== src/Metrics/Fallback.antt =====
-- The warning that reads fall back to the primary (src/db.rs
-- `record_replica_fallback_if_configured`), and its re-arming by the metrics export (src/metrics.rs).
use pgfs.Prelude.{
  ℕ, zero, suc, ◌+◌, ◌≡◌, refl, Bool, true, false, List, [], ◌∷◌, ◌++◌, arith, replicate,
  if◌then◌else◌, nat_beq,
}
use pgfs.Metrics.{Metrics, note_fallback, export_round}

pub data Event : Type 0 where
  falls_back exports : Event

abbrev pub happen : Event → Metrics → Bool × Metrics
happen falls_back m = note_fallback m
happen exports m = (false, export_round m)

abbrev one_if : Bool → ℕ
one_if true = 1
one_if false = 0

-- The number of warnings.
abbrev pub warnings : List Event → Metrics → ℕ
warnings [] m = 0
warnings (e ∷ es) m = one_if (happen e m).0 + warnings es (happen e m).1

-- Periods between exports, each given by its number of reads that fall back.
abbrev pub events_of : List ℕ → List Event
events_of [] = []
events_of (n ∷ ns) = replicate n falls_back ++ exports ∷ events_of ns

abbrev pub busy_periods : List ℕ → ℕ
busy_periods [] = 0
busy_periods (n ∷ ns) = if nat_beq n 0 then busy_periods ns else suc (busy_periods ns)

-- Once warned, there is no further warning up to the end of the period.
warnings_warned :
    (n k : ℕ) (rest : List Event) (m : Metrics)
    → m.replica_fallback_warned ≡ true
    → ((m' : Metrics) → m'.replica_fallback_warned ≡ false → warnings rest m' ≡ k)
    → warnings (replicate n falls_back ++ exports ∷ rest) m ≡ k
unfolding note_fallback export_round
warnings_warned zero k rest m h later = omega (arith, later (export_round m) refl)
warnings_warned (suc n) k rest m h later =
    ground (arith, warnings_warned n k rest (note_fallback m).1 refl later, h)

-- Reads that fall back are reported at WARN once in each period between two exports in which there is
-- such a read, the first time, and not at all in the others.
pub warnings_lem :
    (ns : List ℕ) (m : Metrics)
    → m.replica_fallback_warned ≡ false
    → warnings (events_of ns) m ≡ busy_periods ns
unfolding note_fallback export_round
warnings_lem [] m h = refl
warnings_lem (zero ∷ ns) m h = ground (arith, warnings_lem ns (export_round m) refl)
warnings_lem (suc n ∷ ns) m h = ground (
  arith,
  h,
  warnings_warned n (busy_periods ns) (events_of ns) (note_fallback m).1 refl (warnings_lem ns),
)
