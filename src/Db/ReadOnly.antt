-- ===== src/Db/ReadOnly.antt =====
-- The reads of `Db` (src/db.rs), which leave the tables as they are.
use pgfs.Prelude.{ℕ, refl, Option, none, some, arith, Str}
use pgfs.Metrics.{fetch_add, replica_read_count, Metrics}
use pgfs.Db.Rows.{children, find_entry}
use pgfs.Db.Exec.{Db, Standby, gets, query}
use pgfs.Db.Replica.{
  meta_of, metas_of, standby_query, count_metric, getattr, list, replica_state,
  replica_fresh_cached, route, getattr_at, list_at, list_primary,
  record_replica_fallback_if_configured,
}
use pgfs.Db.Atomic.{getattr_primary-Reads}
use pgfs.Db.Atomic.Whole.{Reads, Reads-query, Reads-lift, Reads-bind}

route-Reads : (t : ℕ) → Reads (route t)
unfolding route replica_fresh_cached
route-Reads t = record { at = λ s. ground arith }

fallback-Reads : Reads record_replica_fallback_if_configured
unfolding record_replica_fallback_if_configured
fallback-Reads = record { at = λ s. ground arith }

pub replica_state-Reads : (t : ℕ) → Reads (replica_state t)
unfolding replica_state replica_fresh_cached
replica_state-Reads t = record { at = λ s. ground arith }

standby_query-Reads : (standby : Standby) → Reads (standby_query standby)
standby_query-Reads standby = record { at = λ s. ground arith }

count_metric-Reads : (f : Metrics → Metrics) → Reads (count_metric f)
count_metric-Reads f = record { at = λ s. refl }

gets-Reads : {A : Type 0} → (f : Db → A) → Reads (gets f)
gets-Reads f = record { at = λ s. refl }

list_primary-Reads : (parent : Str) → Reads (list_primary parent)
unfolding list_primary
list_primary-Reads parent = Reads-bind (gets (λ s. s.name_le)) _ (gets-Reads (λ s. s.name_le)) λ le.
    Reads-bind (query (λ t. children le parent t.entries)) _ (Reads-query _)
      λ rows. Reads-lift (metas_of rows)

getattr_at-Reads : (p n : Str) (o : Option Standby) → Reads (getattr_at p n o)
unfolding getattr_at
getattr_at-Reads p n none = Reads-bind _ _ fallback-Reads λ _. getattr_primary-Reads p n
getattr_at-Reads p n (some standby) =
    Reads-bind _ _ (count_metric-Reads (fetch_add replica_read_count)) λ _.
      Reads-bind (standby_query standby) _ (standby_query-Reads standby)
        λ rows. Reads-lift (meta_of (find_entry p n rows))

list_at-Reads : (p : Str) (o : Option Standby) → Reads (list_at p o)
unfolding list_at
list_at-Reads p none = Reads-bind _ _ fallback-Reads λ _. list_primary-Reads p
list_at-Reads p (some standby) =
    Reads-bind _ _ (count_metric-Reads (fetch_add replica_read_count)) λ _.
      Reads-bind (gets (λ s. s.name_le)) _ (gets-Reads (λ s. s.name_le)) λ le.
        Reads-bind (standby_query standby) _ (standby_query-Reads standby)
          λ rows. Reads-lift (metas_of (children le p rows))

pub getattr-Reads : (t : ℕ) (p n : Str) → Reads (getattr t p n)
unfolding getattr
getattr-Reads t p n = Reads-bind _ _ (route-Reads t) λ o. getattr_at-Reads p n o

pub list-Reads : (t : ℕ) (p : Str) → Reads (list t p)
unfolding list
list-Reads t p = Reads-bind _ _ (route-Reads t) λ o. list_at-Reads p o
