-- ===== src/Db/Replica.antt =====
-- Reads and their routing between the primary and the standby (src/db.rs).
use pgfs.Prelude.{
  ℕ, ◌-◌, Bool, true, false, Option, none, some, List, [], ◌∷◌, Str, codes, ltb, leb, if◌then◌else◌,
}
use pgfs.Metrics.{Metrics, fetch_add, replica_read_count, note_fallback}
use pgfs.Db.Rows.{
  EntryRow, FileMeta, Result, ok, err, panic, db_error, row_to_meta, find_entry, children,
}
use pgfs.Db.Exec.{Db, Standby, Exec, pure, lift, gets, query, ◌>>=◌, ◌>>◌}

abbrev pub freshness_ttl_ms : ℕ
freshness_ttl_ms = 500

-- `row.map(row_to_meta).transpose()`
unfoldable pub meta_of : Option EntryRow → Result (Option FileMeta)
unfolding row_to_meta
meta_of none = ok none
meta_of (some r) = elim (row_to_meta r) [ ok m ↦ ok (some m) | err e ↦ err e | panic ↦ panic ]

-- `rows.iter().map(row_to_meta).collect()`: the first row that fails decides.
unfoldable pub metas_of : List EntryRow → Result (List FileMeta)
unfolding row_to_meta
metas_of [] = ok []
metas_of (r ∷ rs) = elim (row_to_meta r) [
  | ok m ↦ elim (metas_of rs) [ ok ms ↦ ok (m ∷ ms) | err e ↦ err e | panic ↦ panic ]
  | err e ↦ err e
  | panic ↦ panic
]

abbrev pub count_metric : (Metrics → Metrics) → Exec (Unit {0})
count_metric f s = (ok tt, record s { metrics = f s.metrics })

-- The standby's position is at or ahead of the primary's.
unfoldable pub caught_up : Option ℕ → Option (Option ℕ) → Bool
caught_up (some p) (some (some r)) = leb p r
caught_up (some p) (some none) = false
caught_up (some p) none = false
caught_up none r = false

-- `replica_fresh`: a node that is not in recovery is itself a primary.
unfoldable pub replica_fresh : Db → Bool
unfolding caught_up
replica_fresh s = elim s.replica [
  | none ↦ false
  | some standby ↦ elim standby.in_recovery [
    | none ↦ false
    | some recovering ↦ if recovering then caught_up s.primary_lsn standby.replay_lsn else true
  ]
]

-- The verdict that is still valid at `now_ms`.
unfoldable pub valid_verdict : ℕ → Option ℕ → Bool
valid_verdict now_ms none = false
valid_verdict now_ms (some last_check) = ltb (now_ms - last_check) freshness_ttl_ms

unfoldable pub replica_fresh_cached : ℕ → Exec Bool
unfolding replica_fresh valid_verdict
replica_fresh_cached now_ms s =
    if valid_verdict now_ms s.freshness_checked_at then (ok s.freshness_cached, s) else (
      ok (replica_fresh s),
      record s { freshness_cached = replica_fresh s; freshness_checked_at = some now_ms },
    )

unfoldable pub replica_state : ℕ → Exec Str
unfolding replica_fresh_cached
replica_state now_ms s = elim s.replica [
  | none ↦ (ok (codes "none"), s)
  | some _ ↦
      (do
        fresh ← replica_fresh_cached now_ms
        pure (if fresh then codes "fresh" else codes "stale or unreachable"))
        s
]

unfoldable pub getattr_primary : Str → Str → Exec (Option FileMeta)
unfolding query meta_of find_entry
getattr_primary parent name = do
  row ← query (λ t. find_entry parent name t.entries)
  lift (meta_of row)

unfoldable pub list_primary : Str → Exec (List FileMeta)
unfolding query metas_of children
list_primary parent = do
  le ← gets (λ s. s.name_le)
  rows ← query (λ t. children le parent t.entries)
  lift (metas_of rows)

-- A query that the standby answers.
abbrev pub standby_query : Standby → Exec (List EntryRow)
standby_query standby s = elim standby.rows [ none ↦ (err db_error, s) | some rows ↦ (ok rows, s) ]

unfoldable pub record_replica_fallback_if_configured : Exec (Unit {0})
unfolding note_fallback
record_replica_fallback_if_configured s = elim s.replica [
  | none ↦ (ok tt, s)
  | some _ ↦ (ok tt, record s { metrics = (note_fallback s.metrics).1 })
]

-- The standby that a read goes to, if there is one and it counts as fresh.
unfoldable pub route : ℕ → Exec (Option Standby)
unfolding replica_fresh_cached
route now_ms s = elim s.replica [
  | none ↦ (ok none, s)
  | some standby ↦
      (do fresh ← replica_fresh_cached now_ms; pure (if fresh then some standby else none)) s
]

unfoldable pub getattr_at : Str → Str → Option Standby → Exec (Option FileMeta)
unfolding getattr_primary record_replica_fallback_if_configured meta_of find_entry fetch_add
getattr_at parent name (some standby) = do
  count_metric (fetch_add replica_read_count)
  rows ← standby_query standby
  lift (meta_of (find_entry parent name rows))
getattr_at parent name none = do record_replica_fallback_if_configured; getattr_primary parent name

unfoldable pub getattr : ℕ → Str → Str → Exec (Option FileMeta)
unfolding route getattr_at
getattr now_ms parent name = do target ← route now_ms; getattr_at parent name target

unfoldable pub list_at : Str → Option Standby → Exec (List FileMeta)
unfolding list_primary record_replica_fallback_if_configured metas_of children fetch_add
list_at parent (some standby) = do
  count_metric (fetch_add replica_read_count)
  le ← gets (λ s. s.name_le)
  rows ← standby_query standby
  lift (metas_of (children le parent rows))
list_at parent none = do record_replica_fallback_if_configured; list_primary parent

unfoldable pub list : ℕ → Str → Exec (List FileMeta)
unfolding route list_at
list now_ms parent = do target ← route now_ms; list_at parent target
