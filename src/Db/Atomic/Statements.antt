-- ===== src/Db/Atomic/Statements.antt =====
-- Operations that do, where they succeed, what they do on a server without failures (src/db.rs).
use pgfs.Prelude.{
  ◌≡◌, refl, Bool, true, false, Option, none, some, [], arith, if◌then◌else◌, str_key,
}
use pgfs.Db.Rows.{Tables, Error, Result, ok, err, panic}
use pgfs.Db.Exec.{
  Db, Exec, pure, raise, lift, unwrap, gets, continue, ◌>>=◌, execute, query, update,
}

-- The same state with a server on which no further statement fails.
abbrev pub no_faults : Db → Db
no_faults s = record s { faults = [] }

-- Where `m` succeeds, it does what it does when no statement fails.
pub record Honest {A : Type 0} (m : Exec A) : Type 0 where
  pub at : (s : Db) (a : A) (s' : Db) → m s ≡ (ok a, s') → m (no_faults s) ≡ (ok a, no_faults s')

module _ {A : Type 0} where
  pub Honest-pure : (a : A) → Honest (pure a)
  Honest-pure a = record { at = λ s b s' e. cc }

  pub Honest-raise : (e : Error) → Honest (raise {A = A} e)
  Honest-raise x = record { at = λ s b s' e. cc }

  pub Honest-unwrap : (o : Option A) → Honest (unwrap o)
  Honest-unwrap none = record { at = λ s b s' e. cc }
  Honest-unwrap (some a) = record { at = λ s b s' e. cc }

  pub Honest-lift : (r : Result A) → Honest (lift r)
  Honest-lift r = record { at = λ s b s' e. ground arith }

  pub Honest-execute : (f : Tables → Option (A × Tables)) → Honest (execute f)
  unfolding execute
  Honest-execute f = record { at = λ s b s' e. ground arith }

  pub Honest-query : (f : Tables → A) → Honest (query f)
  unfolding query
  Honest-query f = record { at = λ s b s' e. ground arith }

  pub Honest-if : (b : Bool) (m n : Exec A) → Honest m → Honest n → Honest (if b then m else n)
  Honest-if true m n hm hn = hm
  Honest-if false m n hm hn = hn

pub Honest-gets-now : Honest (gets (λ s. s.now))
Honest-gets-now = record { at = λ s b s' e. ground arith }

pub Honest-update : (f : Tables → Tables) → Honest (update f)
unfolding update
Honest-update f = record { at = λ s b s' e. ground arith }

module _ {A B : Type 0} where
  Honest-continue :
      (r : Result A) (f : A → Exec B) (s : Db) (b : B) (s' : Db)
      → continue r f s ≡ (ok b, s')
      → (a : A) × (r ≡ ok a) × (f a s ≡ (ok b, s'))
  Honest-continue (ok a) f s b s' e = (a, refl, e)
  Honest-continue (err x) f s b s' e = absurd (cc)
  Honest-continue panic f s b s' e = absurd (cc)

  pub Honest-bind :
      (m : Exec A) (f : A → Exec B) → Honest m → ((a : A) → Honest (f a)) → Honest (m >>= f)
  Honest-bind m f hm hf = record {
    at = λ s b s' e.
        let (a, e₁, e₂) = Honest-continue (m s).0 f (m s).1 b s' e in
        let whole : m s ≡ (ok a, (m s).1) = λ i. (e₁ i, (m s).1) in
        rw (hm.at s a (m s).1 whole, ◌>>=◌) ((hf a).at (m s).1 b s' e₂);
  }

pub ruleset honest_rules = (
  Honest-pure, Honest-raise, Honest-unwrap, Honest-lift, Honest-execute, Honest-query, Honest-if,
  Honest-gets-now, Honest-update, Honest-bind,
)
