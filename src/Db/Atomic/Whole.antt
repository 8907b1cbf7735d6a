-- ===== src/Db/Atomic/Whole.antt =====
-- Operations that are all or nothing: reads, and then one transaction (src/db.rs).
use pgfs.Prelude.{◌≡◌, ◌≢◌, refl, ap, sym, ◌∙◌, ◌⊎◌, inl, inr, List, [], ◌∷◌, arith, str_key}
use pgfs.Db.Rows.{Tables, Error, db_error, Result, ok, err, panic}
use pgfs.Db.Exec.{
  Db, Fault, fine, failed, lost, Exec, pure, raise, lift, continue, ◌>>=◌, execute, query, commit,
  finish, transaction,
}
use pgfs.Db.Atomic.Statements.{no_faults, Honest}

-- `m` succeeded or failed as a whole: it failed and the tables are as before, or the tables are those
-- that it leaves when no statement fails.
abbrev pub AllOrNothing : {A : Type 0} → Exec A → Db → Type 0
AllOrNothing {A} m s =
    (((a : A) → (m s).0 ≢ ok a) × ((m s).1.tables ≡ s.tables))
    ⊎ ((m s).1.tables ≡ (m (no_faults s)).1.tables)

pub record Atomic {A : Type 0} (m : Exec A) : Type 0 where
  pub at : (s : Db) → AllOrNothing m s

-- `m` only reads.
pub record Reads {A : Type 0} (m : Exec A) : Type 0 where
  pub at : (s : Db) → (m s).1.tables ≡ s.tables

module _ {A : Type 0} where
  pub Atomic-pure : (a : A) → Atomic (pure a)
  Atomic-pure a = record { at = λ s. inr refl }

  pub Atomic-raise : (e : Error) → Atomic (raise {A = A} e)
  Atomic-raise e = record { at = λ s. inr refl }

  commit-AllOrNothing :
      (before : Tables) (a : A) (fs : List Fault) (s : Db)
      → (((b : A) → (commit before a fs s).0 ≢ ok b) × ((commit before a fs s).1.tables ≡ before))
        ⊎ ((b : A) × (ok a ≡ ok b) × ((commit before a fs s).1.tables ≡ s.tables))
  unfolding commit
  commit-AllOrNothing before a [] s = inr (a, refl, refl)
  commit-AllOrNothing before a (fine ∷ fs) s = inr (a, refl, refl)
  commit-AllOrNothing before a (failed ∷ fs) s = inl (λ b h. cc, refl)
  commit-AllOrNothing before a (lost ∷ fs) s = inr (a, refl, refl)

  finish-AllOrNothing :
      (before : Tables) (r : Result A) (s : Db)
      → (((a : A) → (finish before r s).0 ≢ ok a) × ((finish before r s).1.tables ≡ before))
        ⊎ ((a : A) × (r ≡ ok a) × ((finish before r s).1.tables ≡ s.tables))
  unfolding finish
  finish-AllOrNothing before (ok a) s = commit-AllOrNothing before a s.faults s
  finish-AllOrNothing before (err e) s = inl (λ a h. cc, refl)
  finish-AllOrNothing before panic s = inl (λ a h. cc, refl)

-- What the statement that begins a transaction does.
abbrev pub Began : Db → Type 0
Began s =
    ((s₁ : Db) × (query (λ t. tt) s ≡ (ok tt, s₁))
      × (s₁.tables ≡ s.tables)
      × (no_faults s₁ ≡ no_faults s))
    ⊎ ((e : Error) × (s₁ : Db) × (query {A = Unit {0}} (λ t. tt) s ≡ (err e, s₁))
        × (s₁.tables ≡ s.tables))

begin_cases : (fs : List Fault) (s : Db) → s.faults ≡ fs → Began s
unfolding query
begin_cases [] s e = inl (s, rw (e, execute), refl, refl)
begin_cases (fine ∷ fs) s e = inl (record s { faults = fs }, rw (e, execute), refl, refl)
begin_cases (failed ∷ fs) s e = inr (db_error, record s { faults = fs }, rw (e, execute), refl)
begin_cases (lost ∷ fs) s e = inr (db_error, record s { faults = fs }, rw (e, execute), refl)

module _ {A : Type 0} (body : Exec A) where
  transaction_complete :
      (s s₂ : Db) (a : A)
      → body (no_faults s) ≡ (ok a, no_faults s₂)
      → (transaction body (no_faults s)).1.tables ≡ s₂.tables
  unfolding transaction
  transaction_complete s s₂ a e = rw e

  pub Atomic-transaction : Honest body → Atomic (transaction body)
  unfolding transaction
  Atomic-transaction h = record {
    at = λ s. elim (begin_cases s.faults s refl) [
      | inr (x, s₁, e, same) ↦ rw (e, transaction) (inl (λ a k. cc, same))
      | inl (s₁, e, same, calm) ↦
          rw (e, transaction)
            (elim (finish-AllOrNothing s₁.tables (body s₁).0 (body s₁).1) [
              | inl (no_result, back) ↦ inl (no_result, back ∙ same)
              | inr (a, r, kept) ↦ inr (
                  kept
                  ∙ sym (
                      transaction_complete s (body s₁).1 a
                        (ap body (sym calm) ∙ h.at s₁ a (body s₁).1 (λ i. (r i, (body s₁).1)))))
            ])
    ];
  }

module _ {A : Type 0} where
  pub Reads-query : (f : Tables → A) → Reads (query f)
  unfolding query
  Reads-query f = record { at = λ s. ground arith }

  pub Reads-lift : (r : Result A) → Reads (lift r)
  Reads-lift r = record { at = λ s. refl }

module _ {A B : Type 0} where
  Reads-continue :
      (r : Result A) (f : A → Exec B) (s : Db)
      → ((a : A) → Reads (f a))
      → (continue r f s).1.tables ≡ s.tables
  Reads-continue (ok a) f s h = (h a).at s
  Reads-continue (err e) f s h = refl
  Reads-continue panic f s h = refl

  pub Reads-bind :
      (m : Exec A) (f : A → Exec B) → Reads m → ((a : A) → Reads (f a)) → Reads (m >>= f)
  Reads-bind m f hm hf = record { at = λ s. Reads-continue (m s).0 f (m s).1 hf ∙ hm.at s }

  Atomic-continue :
      (m : Exec A) (f : A → Exec B) (s s₁ : Db) (r : Result A)
      → m s ≡ (r, s₁)
      → s₁.tables ≡ s.tables
      → Honest m
      → ((a : A) → Atomic (f a))
      → AllOrNothing (m >>= f) s
  Atomic-continue m f s s₁ (ok a) e same hm hf =
      rw (e, hm.at s a s₁ e, ◌>>=◌)
        (elim ((hf a).at s₁) [
          | inl (failed_, kept) ↦ inl (failed_, kept ∙ same)
          | inr whole ↦ inr whole
        ])
  Atomic-continue m f s s₁ (err x) e same hm hf = rw (e, ◌>>=◌) (inl (λ a h. cc, same))
  Atomic-continue m f s s₁ panic e same hm hf = rw (e, ◌>>=◌) (inl (λ a h. cc, same))

  -- What only reads may go before what is atomic.
  pub Atomic-bind :
      (m : Exec A) (f : A → Exec B)
      → Reads m
      → Honest m
      → ((a : A) → Atomic (f a))
      → Atomic (m >>= f)
  Atomic-bind m f reads hm hf = record {
    at = λ s. Atomic-continue m f s (m s).1 (m s).0 refl (reads.at s) hm hf;
  }
