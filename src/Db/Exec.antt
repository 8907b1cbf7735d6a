-- ===== src/Db/Exec.antt =====
-- Operations on the database: state passing with failure. A statement that fails has changed
-- nothing, unless only its reply was lost.
use pgfs.Prelude.{ℕ, Bool, Option, none, some, List, [], ◌∷◌, Str}
use pgfs.Metrics.{Metrics}
use pgfs.Db.Rows.{EntryRow, Tables, Error, db_error, Result, ok, err, panic}

-- What becomes of a statement that is sent to the primary: it runs; it fails; or it runs and the
-- connection breaks before the reply.
pub data Fault : Type 0 where
  fine failed lost : Fault

-- The streaming standby: its answers to the freshness queries and its rows, `none` where the query
-- fails.
pub record Standby : Type 0 where
  pub in_recovery : Option Bool
  pub replay_lsn : Option (Option ℕ)
  pub rows : Option (List EntryRow)

-- `Db`, with the server behind it: `faults` are the outcomes of the statements to come (all run once
-- the list is used up), `now` is the server's clock, `name_le` its collation, and `primary_lsn` the
-- answer to the query for the WAL position.
pub record Db : Type 0 where
  pub tables : Tables
  pub faults : List Fault
  pub now : ℕ
  pub name_le : Str → Str → Bool
  pub primary_lsn : Option ℕ
  pub replica : Option Standby
  pub freshness_cached : Bool
  pub freshness_checked_at : Option ℕ
  pub metrics : Metrics

abbrev pub Exec {ℓ} : Type ℓ → Type ℓ
Exec A = Db → Result A × Db

module _ {ℓ} {A : Type ℓ} where
  abbrev pub pure : A → Exec A
  pure a s = (ok a, s)

  abbrev pub raise : Error → Exec A
  raise e s = (err e, s)

  abbrev pub lift : Result A → Exec A
  lift r s = (r, s)

-- An `Option` whose `none` is a panic.
abbrev pub unwrap {ℓ} : {A : Type ℓ} → Option A → Exec A
unwrap none s = (panic, s)
unwrap (some a) s = (ok a, s)

abbrev pub gets {ℓ} : {A : Type ℓ} → (Db → A) → Exec A
gets f s = (ok (f s), s)

module _ {ℓ κ} {A : Type ℓ} {B : Type κ} where
  abbrev pub continue : Result A → (A → Exec B) → Db → Result B × Db
  continue (ok a) f s = f a s
  continue (err e) f s = (err e, s)
  continue panic f s = (panic, s)

  infixl 10 ◌>>=◌
  abbrev pub ◌>>=◌ : Exec A → (A → Exec B) → Exec B
  ◌>>=◌ m f s = let (r, s') = m s in continue r f s'

infixl 10 ◌>>◌
abbrev pub ◌>>◌ {ℓ} : {B : Type ℓ} → Exec (Unit {0}) → Exec B → Exec B
m >> k = m >>= λ _. k

module _ {A : Type 0} where
  -- A statement that the server accepts or refuses by the constraints of the tables.
  abbrev applied : Option (A × Tables) → Db → Result A × Db
  applied none s = (err db_error, s)
  applied (some (a, t)) s = (ok a, record s { tables = t })

  abbrev outcome : List Fault → Option (A × Tables) → Db → Result A × Db
  outcome [] o s = applied o s
  outcome (fine ∷ fs) o s = applied o (record s { faults = fs })
  outcome (failed ∷ fs) o s = (err db_error, record s { faults = fs })
  outcome (lost ∷ fs) o s = (err db_error, (applied o (record s { faults = fs })).1)

  unfoldable pub execute : (Tables → Option (A × Tables)) → Exec A
  execute f s = outcome s.faults (f s.tables) s

  unfoldable pub query : (Tables → A) → Exec A
  unfolding execute
  query f = execute (λ t. some (f t, t))

unfoldable pub update : (Tables → Tables) → Exec (Unit {0})
unfolding execute
update f = execute (λ t. some (tt, f t))

module _ {A : Type 0} where
  -- COMMIT: a commit that fails has rolled back, unless only its reply was lost.
  unfoldable pub commit : Tables → A → List Fault → Db → Result A × Db
  commit before a [] s = (ok a, s)
  commit before a (fine ∷ fs) s = (ok a, record s { faults = fs })
  commit before a (failed ∷ fs) s = (err db_error, record s { tables = before; faults = fs })
  commit before a (lost ∷ fs) s = (err db_error, record s { faults = fs })

  -- The end of a transaction: dropping it without a commit rolls it back.
  unfoldable pub finish : Tables → Result A → Db → Result A × Db
  unfolding commit
  finish before (ok a) s = commit before a s.faults s
  finish before (err e) s = (err e, record s { tables = before })
  finish before panic s = (panic, record s { tables = before })

  unfoldable pub transaction : Exec A → Exec A
  unfolding query finish
  transaction body s =
      (query (λ t. tt) >>= λ _ s₁. let (r, s₂) = body s₁ in finish s₁.tables r s₂) s
