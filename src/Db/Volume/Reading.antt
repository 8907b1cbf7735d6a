-- ===== src/Db/Volume/Reading.antt =====
-- The reads of src/db.rs on a database that holds a map, where no statement fails.
use pgfs.Prelude.{
  ℕ, ◌+◌, ◌^◌, ◌≤◌, ◌≡◌, ◌∙◌, ap, refl, Bool, true, false, Option, none, some, [], arith, Str,
  if◌then◌else◌,
}
use pgfs.Block.{Bytes}
use pgfs.Db.Rows.{FileMeta, Kind, file, dir, Tables, Result, ok, err, panic}
use pgfs.Db.Exec.{Db, Exec, pure, lift, unwrap, query, execute, continue, ◌>>=◌}
use pgfs.Db.Replica.{getattr_primary, meta_of, record_replica_fallback_if_configured}
use pgfs.Db.Content.{read_range, read_range_primary, read_meta, read_file}
use pgfs.Metrics.{Metrics}
use pgfs.Db.Content.Stored.{IsTable}
use pgfs.Db.Content.RoundTrip.{fallback_lem}
use pgfs.Db.Content.Whole.{calm, bind_ok, getattr_primary_lem}
use pgfs.Db.Content.File.{read_range-Holds}
use pgfs.Db.Volume.{
  Node, directory, regular, Volume, node, act, stats, reads, answered, bytes_of, attributes_of,
  shown,
}
use pgfs.Db.Volume.Shows.{Represents, Shows, Shows-same, tables-Represents}

-- `m` leaves the tables, and needs no statement to fail.
record IsSilent {A : Type 0} (m : Exec A) : Type 0 where
  pub at : (s : Db) → s.faults ≡ [] → ((m s).1.tables ≡ s.tables) × ((m s).1.faults ≡ [])

module _ {A : Type 0} where
  IsSilent-pure : (a : A) → IsSilent (pure a)
  IsSilent-pure a = record { at = λ s e. (refl, e) }

  IsSilent-lift : (r : Result A) → IsSilent (lift r)
  IsSilent-lift r = record { at = λ s e. (refl, e) }

  IsSilent-unwrap : (o : Option A) → IsSilent (unwrap o)
  IsSilent-unwrap none = record { at = λ s e. (refl, e) }
  IsSilent-unwrap (some a) = record { at = λ s e. (refl, e) }

  IsSilent-query : (f : Tables → A) → IsSilent (query f)
  unfolding query execute
  IsSilent-query f = record { at = λ s e. rw (e) (refl, refl) }

  IsSilent-if : (b : Bool) (m n : Exec A) → IsSilent m → IsSilent n → IsSilent (if b then m else n)
  IsSilent-if true m n h k = h
  IsSilent-if false m n h k = k

module _ {A B : Type 0} where
  IsSilent-continue :
      (r : Result A) (f : A → Exec B) (s : Db)
      → ((a : A) → IsSilent (f a))
      → s.faults ≡ []
      → ((continue r f s).1.tables ≡ s.tables) × ((continue r f s).1.faults ≡ [])
  IsSilent-continue (ok a) f s h e = (h a).at s e
  IsSilent-continue (err x) f s h e = (refl, e)
  IsSilent-continue panic f s h e = (refl, e)

  IsSilent-bind :
      (m : Exec A) (f : A → Exec B) → IsSilent m → ((a : A) → IsSilent (f a)) → IsSilent (m >>= f)
  IsSilent-bind m f h k = record {
    at = λ s e.
        let (t, g) = h.at s e in
        let (t', g') = IsSilent-continue (m s).0 f (m s).1 k g in (t' ∙ t, g');
  }

IsSilent-getattr_primary : (p n : Str) → IsSilent (getattr_primary p n)
unfolding getattr_primary
IsSilent-getattr_primary p n =
    IsSilent-bind _ _ (IsSilent-query _) (λ row. IsSilent-lift (meta_of row))

IsSilent-fallback : IsSilent record_replica_fallback_if_configured
unfolding record_replica_fallback_if_configured
IsSilent-fallback = record { at = λ s e. ground (arith, e) }

IsSilent-read_file :
    (p n : Str) (offset len : ℕ) (m : FileMeta) → IsSilent (read_file p n offset len m)
unfolding read_file
IsSilent-read_file p n offset len m = IsSilent-if _ _ _ (IsSilent-pure _) (
    IsSilent-bind _ _ (IsSilent-query _)
      λ rows. IsSilent-bind _ _ (IsSilent-unwrap _) λ b. IsSilent-pure (some b))

IsSilent-kind :
    (k : Kind) (m o : Exec (Option Bytes))
    → IsSilent m
    → IsSilent o
    → IsSilent (elim k [ file ↦ m | dir ↦ o ])
IsSilent-kind file m o h g = h
IsSilent-kind dir m o h g = g

IsSilent-read_meta :
    (p n : Str) (offset len : ℕ) (o : Option FileMeta) → IsSilent (read_meta p n offset len o)
unfolding read_meta
IsSilent-read_meta p n offset len none = IsSilent-pure none
IsSilent-read_meta p n offset len (some m) =
    IsSilent-kind m.kind _ _ (IsSilent-read_file p n offset len m) (IsSilent-pure none)

IsSilent-read_range : (p n : Str) (offset len : ℕ) → IsSilent (read_range p n offset len)
unfolding read_range read_range_primary
IsSilent-read_range p n offset len =
    IsSilent-bind _ _ IsSilent-fallback
      λ _. IsSilent-bind _ _ (IsSilent-getattr_primary p n) (IsSilent-read_meta p n offset len)

-- The attributes that the database has for a name.
getattr_primary-Shows :
    (p n : Str) (o : Option Node) (s : Db)
    → IsTable s.tables.blocks
    → Shows p n o s
    → (m : Option FileMeta) × (getattr_primary p n (calm s) ≡ (ok m, calm s))
      × (shown m ≡ attributes_of o)
unfolding getattr_primary query execute meta_of
getattr_primary-Shows p n none s t h = (none, rw (h.0) refl, refl)
getattr_primary-Shows p n (some directory) s t h = (
  some h.attributes,
  getattr_primary_lem p n h.row h.attributes s
      (record { found = h.found; attributes = h.read; table = t }),
  ground (arith, h.is_dir, h.size),
)
getattr_primary-Shows p n (some (regular f)) s t h = (
  some h.attributes,
  getattr_primary_lem p n h.row h.attributes s h.has,
  ground (arith, h.is_file, h.size),
)

pub stats-Represents :
    (p n : Str) (v : Volume) (s : Db)
    → Represents v s
    → act (stats p n) (calm s) ≡ (ok (answered (stats p n) v), calm s)
stats-Represents p n v s r =
    let (m, runs, e) = getattr_primary-Shows p n (node p n v) s r.table (r.shows p n) in
    bind_ok (getattr_primary p n) _ (calm s) runs ∙ rw (e) refl

-- What is no file is not read.
not_read :
    (p n : Str) (offset len : ℕ) (o : Option FileMeta) (s : Db)
    → getattr_primary p n (calm s) ≡ (ok o, calm s)
    → ((m : FileMeta) → o ≡ some m → m.kind ≡ dir)
    → (read_range_primary p n offset len (calm s)).0 ≡ ok none
unfolding read_range_primary read_meta
not_read p n offset len none s e h = ap (λ x. x.0) (bind_ok (getattr_primary p n) _ (calm s) e)
not_read p n offset len (some m) s e h =
    ap (λ x. x.0) (bind_ok (getattr_primary p n) _ (calm s) e) ∙ rw (h m refl, read_meta) refl

no_range :
    (p n : Str) (offset len : ℕ) (s : Db)
    → ((metrics : Metrics)
        → (read_range_primary p n offset len (calm (record s { metrics = metrics }))).0 ≡ ok none)
    → (read_range p n offset len (calm s)).0 ≡ ok none
unfolding read_range
no_range p n offset len s h =
    let (metrics, e) = fallback_lem s in
    ap (λ x. x.0)
      (bind_ok record_replica_fallback_if_configured (λ _. read_range_primary p n offset len)
        (calm s) e)
    ∙ h metrics

read_range-Shows :
    (p n : Str) (offset len : ℕ) (o : Option Node) (s : Db)
    → offset + len ≤ 2 ^ 47
    → IsTable s.tables.blocks
    → Shows p n o s
    → (read_range p n offset len (calm s)).0 ≡ ok (bytes_of offset len o)
read_range-Shows p n offset len none s fits t h = no_range p n offset len s (λ metrics.
    let s₁ = record s { metrics = metrics } in
    let (m, runs, e) = getattr_primary-Shows p n none s₁ t h in
    not_read p n offset len m s₁ runs (λ x same. absurd (ground (arith, e, same))))
read_range-Shows p n offset len (some directory) s fits t h = no_range p n offset len s (λ metrics.
    let s₁ = record s { metrics = metrics } in
    let (m, runs, e) =
      getattr_primary-Shows p n (some directory) s₁ t
        (Shows-same p n (some directory) s s₁ refl (λ k. refl) t h) in
    not_read p n offset len m s₁ runs (λ x same. ground (arith, e, same)))
read_range-Shows p n offset len (some (regular f)) s fits t h =
    read_range-Holds p n f s h offset len fits

pub reads-Represents :
    (p n : Str) (offset len : ℕ) (v : Volume) (s : Db)
    → offset + len ≤ 2 ^ 47
    → Represents v s
    → (s' : Db) × (act (reads p n offset len) (calm s)
        ≡ (ok (answered (reads p n offset len) v), calm s'))
      × Represents v s'
reads-Represents p n offset len v s fits r =
    let s' : Db = (read_range p n offset len (calm s)).1 in
    let (same, quiet) = (IsSilent-read_range p n offset len).at (calm s) refl in
    let runs : read_range p n offset len (calm s)
        ≡ (ok (bytes_of offset len (node p n v)), calm s') =
      λ i. (
        read_range-Shows p n offset len (node p n v) s fits r.table (r.shows p n) i,
        record s' { faults = quiet i },
      ) in
    (s', bind_ok (read_range p n offset len) _ (calm s) runs, tables-Represents v s s' same r)
