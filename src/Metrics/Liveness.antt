-- ===== src/Metrics/Liveness.antt =====
-- The liveness check has no false alarm: it fails only if the heartbeat has been silent.
use pgfs.Prelude.{ℕ, suc, ◌+◌, ◌≤◌, ◌<◌, ◌≡◌, ◌⊎◌, true, false, List, [], ◌∷◌, arith, ltb, ◌≢◌}
use pgfs.Metrics.{Metrics, u64_max, heartbeat_deadline_ms, beat, check_liveness, init}

-- The heartbeat thread beats, or a callback checks, at a time of the monotonic clock.
pub data Event : Type 0 where
  beats : ℕ → Event
  checks : ℕ → Event

unfoldable pub run : Metrics → List Event → Metrics
unfolding beat check_liveness
run m [] = m
run m (beats t ∷ es) = run (beat m) es
run m (checks t ∷ es) = run (check_liveness t m).1 es

-- The time of the last beat of a run, `last` if it has none.
abbrev pub last_beat_at : ℕ → List Event → ℕ
last_beat_at last [] = last
last_beat_at last (beats t ∷ es) = last_beat_at t es
last_beat_at last (checks t ∷ es) = last_beat_at last es

-- The times of the events do not fall, and neither they nor the number of beats reach the end of a
-- `u64`.
abbrev pub InOrder : ℕ → ℕ → List Event → Type 0
InOrder now count [] = Unit {0}
InOrder now count (beats t ∷ es) = (now ≤ t) × (suc count < u64_max) × InOrder t (suc count) es
InOrder now count (checks t ∷ es) =
    (now ≤ t) × (t + heartbeat_deadline_ms < u64_max) × InOrder t count es

record Inv (m : Metrics) (now last : ℕ) : Type 0 where
  past : last ≤ now
  in_range : m.liveness < u64_max
  behind : (m.last_beat_seen ≡ u64_max) ⊎ (m.last_beat_seen ≤ m.liveness)
  armed : m.last_beat_seen ≡ m.liveness → last + heartbeat_deadline_ms ≤ m.beat_deadline_at

beat-Inv :
    (m : Metrics) (now last t : ℕ)
    → now ≤ t
    → suc m.liveness < u64_max
    → Inv m now last
    → Inv (beat m) t t
unfolding beat
beat-Inv m now last t h k v = ground arith

check-Inv :
    (m : Metrics) (now last t : ℕ)
    → now ≤ t
    → t + heartbeat_deadline_ms < u64_max
    → Inv m now last
    → Inv (check_liveness t m).1 t last
unfolding check_liveness
check-Inv m now last t h k v = ground arith

liveness-beat : (m : Metrics) → suc m.liveness < u64_max → (beat m).liveness ≡ suc m.liveness
unfolding beat
liveness-beat m h = ground arith

liveness-check : (m : Metrics) (t : ℕ) → (check_liveness t m).1.liveness ≡ m.liveness
unfolding check_liveness
liveness-check m t = ground arith

check-silent :
    (m : Metrics) (now last t : ℕ)
    → Inv m now last
    → (check_liveness t m).0 ≡ false
    → last + heartbeat_deadline_ms ≤ t
unfolding check_liveness
check-silent m now last t v h = ground arith

run-silent :
    (es : List Event) (m : Metrics) (now last t : ℕ)
    → Inv m now last
    → InOrder now m.liveness es
    → (check_liveness t (run m es)).0 ≡ false
    → last_beat_at last es + heartbeat_deadline_ms ≤ t
unfolding run
run-silent [] m now last t v o h = check-silent m now last t v h
run-silent (beats s ∷ es) m now last t v o h =
    run-silent es (beat m) s s t (beat-Inv m now last s o.0 o.1 v) (rw (liveness-beat m o.1) o.2) h
run-silent (checks s ∷ es) m now last t v o h =
    run-silent es (check_liveness s m).1 s last t (check-Inv m now last s o.0 o.1 v)
      (rw (liveness-check m s) o.2) h

-- After any run of beats and checks from the start of the process, with times in order and within a
-- `u64`, a check that reports a stalled heartbeat comes at least three heartbeat periods after the
-- last beat.
pub check_liveness-silent :
    (es : List Event) (t : ℕ)
    → InOrder 0 0 es
    → (check_liveness t (run init es)).0 ≡ false
    → last_beat_at 0 es + heartbeat_deadline_ms ≤ t
check_liveness-silent es t o h = run-silent es init 0 0 t (ground arith) o h

-- A check that sees a new beat arms the deadline: as long as no further beat comes, a later check
-- passes exactly before three heartbeat periods are over.
check_liveness-deadline :
    (m : Metrics) (t later : ℕ)
    → m.liveness < u64_max
    → m.last_beat_seen ≢ m.liveness
    → t + heartbeat_deadline_ms < u64_max
    → ((check_liveness t m).0 ≡ true)
      × ((check_liveness later (check_liveness t m).1).0 ≡ ltb later (t + heartbeat_deadline_ms))
unfolding check_liveness
check_liveness-deadline m t later h k fits = ground arith
