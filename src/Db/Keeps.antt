-- ===== src/Db/Keeps.antt =====
-- Conditions on the tables that an operation of `Db` (src/db.rs) keeps, whichever statements fail.
use pgfs.Prelude.{
  Bool, true, false, if◌then◌else◌, Option, none, some, List, [], ◌∷◌, ◌≡◌, refl, arith,
}
use pgfs.Db.Rows.{Tables, Error, Result, ok, err, panic}
use pgfs.Db.Exec.{
  Db, Exec, Fault, fine, failed, lost, pure, raise, lift, unwrap, gets, query, update, execute,
  continue, transaction, finish, commit, ◌>>=◌,
}

pub record Keeps (P : Tables → Type 0) {A : Type 0} (m : Exec A) : Type 0 where
  pub at : (s : Db) → P s.tables → P (m s).1.tables

module _ (P : Tables → Type 0) where
  pub Keeps-if :
      {A : Type 0} (b : Bool) (m n : Exec A) → Keeps P m → Keeps P n → Keeps P (if b then m else n)
  Keeps-if true m n hm hn = hm
  Keeps-if false m n hm hn = hn

  module _ {A : Type 0} where
    pub Keeps-pure : (a : A) → Keeps P (pure a)
    Keeps-pure a = record { at = λ s h. h }

    pub Keeps-raise : (e : Error) → Keeps P (raise {A = A} e)
    Keeps-raise e = record { at = λ s h. h }

    pub Keeps-unwrap : (o : Option A) → Keeps P (unwrap o)
    Keeps-unwrap none = record { at = λ s h. h }
    Keeps-unwrap (some a) = record { at = λ s h. h }

    pub Keeps-lift : (r : Result A) → Keeps P (lift r)
    Keeps-lift r = record { at = λ s h. h }

    pub Keeps-gets : (f : Db → A) → Keeps P (gets f)
    Keeps-gets f = record { at = λ s h. h }

    -- A statement that the server accepts leaves the condition.
    abbrev pub Leaves : Option (A × Tables) → Type 0
    Leaves none = Unit {0}
    Leaves (some (a, t)) = P t

    execute_faults :
        (f : Tables → Option (A × Tables)) (fs : List Fault) (s : Db)
        → s.faults ≡ fs
        → (o : Option (A × Tables)) → f s.tables ≡ o
        → Leaves o
        → P s.tables
        → P (execute f s).1.tables
    unfolding execute
    execute_faults f [] s e none eo l h = rw (e, eo) h
    execute_faults f [] s e (some (a, t)) eo l h = rw (e, eo) l
    execute_faults f (fine ∷ fs) s e none eo l h = rw (e, eo) h
    execute_faults f (fine ∷ fs) s e (some (a, t)) eo l h = rw (e, eo) l
    execute_faults f (failed ∷ fs) s e o eo l h = rw (e) h
    execute_faults f (lost ∷ fs) s e none eo l h = rw (e, eo) h
    execute_faults f (lost ∷ fs) s e (some (a, t)) eo l h = rw (e, eo) l

    pub Keeps-execute :
        (f : Tables → Option (A × Tables))
        → ((t : Tables) → P t → Leaves (f t))
        → Keeps P (execute f)
    Keeps-execute f l = record {
      at = λ s h. execute_faults f s.faults s refl (f s.tables) refl (l s.tables h) h;
    }

    pub Keeps-query : (f : Tables → A) → Keeps P (query f)
    unfolding query
    Keeps-query f = Keeps-execute (λ t. some (f t, t)) (λ t h. h)

  pub Keeps-update : (f : Tables → Tables) → ((t : Tables) → P t → P (f t)) → Keeps P (update f)
  unfolding update
  Keeps-update f l = Keeps-execute (λ t. some (tt, f t)) l

  module _ {A B : Type 0} where
    Keeps-continue :
        (r : Result A) (f : A → Exec B) (s : Db)
        → ((a : A) → Keeps P (f a))
        → P s.tables
        → P (continue r f s).1.tables
    Keeps-continue (ok a) f s hf h = (hf a).at s h
    Keeps-continue (err e) f s hf h = h
    Keeps-continue panic f s hf h = h

    pub Keeps-bind :
        (m : Exec A) (f : A → Exec B) → Keeps P m → ((a : A) → Keeps P (f a)) → Keeps P (m >>= f)
    Keeps-bind m f hm hf = record { at = λ s h. Keeps-continue (m s).0 f (m s).1 hf (hm.at s h) }

  module _ {A : Type 0} where
    commit_keeps :
        (before : Tables) (a : A) (fs : List Fault) (s : Db)
        → P before
        → P s.tables
        → P (commit before a fs s).1.tables
    unfolding commit
    commit_keeps before a [] s b h = h
    commit_keeps before a (fine ∷ fs) s b h = h
    commit_keeps before a (failed ∷ fs) s b h = b
    commit_keeps before a (lost ∷ fs) s b h = h

    finish_keeps :
        (before : Tables) (r : Result A) (s : Db)
        → P before
        → P s.tables
        → P (finish before r s).1.tables
    unfolding finish
    finish_keeps before (ok a) s b h = commit_keeps before a s.faults s b h
    finish_keeps before (err e) s b h = b
    finish_keeps before panic s b h = b

    pub Keeps-transaction : (body : Exec A) → Keeps P body → Keeps P (transaction body)
    unfolding transaction
    Keeps-transaction body hb =
        Keeps-bind (query (λ t. tt)) (λ _ s₁. let (r, s₂) = body s₁ in finish s₁.tables r s₂)
          (Keeps-query (λ t. tt))
          (λ _. record { at = λ s h. finish_keeps s.tables (body s).0 (body s).1 h (hb.at s h) })

pub ruleset keeps_rules = (
  Keeps-if, Keeps-pure, Keeps-raise, Keeps-lift, Keeps-gets, Keeps-unwrap, Keeps-query, Keeps-bind,
  Keeps-transaction,
)

-- A condition on what an operation returns.
pub record Yields {A : Type 0} (Q : A → Type 0) (m : Exec A) : Type 0 where
  pub at : (s : Db) (a : A) → (m s).0 ≡ ok a → Q a

module _ {A B : Type 0} where
  continue-Yields :
      (Q : B → Type 0) (r : Result A) (f : A → Exec B) (s : Db) (b : B)
      → ((a : A) → Yields Q (f a))
      → (continue r f s).0 ≡ ok b
      → Q b
  continue-Yields Q (ok a) f s b y e = (y a).at s b e
  continue-Yields Q (err x) f s b y e = absurd (ground (arith, e))
  continue-Yields Q panic f s b y e = absurd (ground (arith, e))

  pub Yields-bind :
      (Q : B → Type 0) (m : Exec A) (f : A → Exec B)
      → ((a : A) → Yields Q (f a))
      → Yields Q (m >>= f)
  Yields-bind Q m f y = record { at = λ s b e. continue-Yields Q (m s).0 f (m s).1 b y e }

  module _ (P : Tables → Type 0) (Q : A → Type 0) where
    continue-Keeps :
        (r : Result A) (f : A → Exec B) (s : Db)
        → ((a : A) → r ≡ ok a → Q a)
        → ((a : A) → Q a → Keeps P (f a))
        → P s.tables
        → P (continue r f s).1.tables
    continue-Keeps (ok a) f s q hf h = (hf a (q a refl)).at s h
    continue-Keeps (err x) f s q hf h = h
    continue-Keeps panic f s q hf h = h

    -- What comes next may rest on what was returned.
    pub Keeps-bind-Yields :
        (m : Exec A) (f : A → Exec B)
        → Keeps P m
        → Yields Q m
        → ((a : A) → Q a → Keeps P (f a))
        → Keeps P (m >>= f)
    Keeps-bind-Yields m f hm y hf = record {
      at = λ s h. continue-Keeps (m s).0 f (m s).1 (y.at s) hf (hm.at s h);
    }
